-- ===== src/Md5/Command.antt =====
-- The socket option that sets an MD5 key: `tcp_v4_parse_md5_keys` of redhat_kernel/tcp_ipv4.c.
pub mod Parsed
use starlink_tcp.Common.{
  ℕ, List, Bool, true, false, not, ◌&&◌, ◌||◌, Option, none, some, ltb, ◌==◌, if◌then◌else◌,
}
use starlink_tcp.Md5.{
  Scope, Md5Sock, af_inet, Memory, Result, failed, einval, efault, ekeyrejected, tcp_md5_do_add,
  tcp_md5_do_del,
}

-- `struct tcp_md5sig`: the address with its family, the key of `tcpm_keylen` bytes, and the bits
-- TCP_MD5SIG_FLAG_PREFIX and TCP_MD5SIG_FLAG_IFINDEX of `tcpm_flags`.
pub record Cmd : Type 0 where
  pub family : ℕ
  pub addr : List ℕ
  pub key : List ℕ
  pub keylen : ℕ
  pub prefixlen : ℕ
  pub ifindex : ℕ
  pub flag_prefix : Bool
  pub flag_ifindex : Bool

-- The call: whether `optname` is TCP_MD5SIG_EXT, `optlen`, and what `copy_from_sockptr` reads.
pub record Call : Type 0 where
  pub ext : Bool
  pub optlen : ℕ
  pub copied : Option Cmd

-- What the headers and the rest of the kernel give: the size of the struct, TCP_MD5SIG_MAXKEYLEN,
-- the device of an index that is an L3 master (its own index), and `tcp_ao_required`, where `none`
-- stands for the index -1.
pub record World : Type 0 where
  pub cmd_size : ℕ
  pub max_keylen : ℕ
  pub l3_master : ℕ → Option ℕ
  pub ao_required : List ℕ → Option ℕ → Bool

pub prefix_of : Bool → Cmd → Option ℕ
prefix_of ext cmd =
    if ext && cmd.flag_prefix
    then if ltb 32 cmd.prefixlen then none else some cmd.prefixlen
    else some 32

-- A master of index 0 is refused like none.
abbrev pub nonzero : Option ℕ → Option ℕ
nonzero none = none
nonzero (some n) = if n == 0 then none else some n

pub l3index_of : World → Bool → Cmd → Option ℕ
l3index_of w ext cmd =
    if ext && not (cmd.ifindex == 0) && cmd.flag_ifindex
    then nonzero (w.l3_master cmd.ifindex)
    else some 0

-- From the test of the key's length on.
pub command : World → Memory → Cmd → Scope → Md5Sock → Result
command w mem cmd s sk =
    if cmd.keylen == 0
    then tcp_md5_do_del mem s sk
    else if ltb w.max_keylen cmd.keylen
    then failed einval sk
    else if w.ao_required cmd.addr (if cmd.flag_ifindex then some s.l3index else none)
    then failed ekeyrejected sk
    else tcp_md5_do_add mem s cmd.key sk

-- With the prefix and the device, where they are valid.
pub with_scope : World → Memory → Cmd → Option ℕ → Option ℕ → Md5Sock → Result
with_scope w mem cmd (some prefixlen) (some l3index) sk =
    command w mem cmd
      record {
        addr = cmd.addr;
        family = af_inet;
        prefixlen = prefixlen;
        l3index = l3index;
        ifindex = cmd.flag_ifindex;
      }
      sk
with_scope w mem cmd none l3index sk = failed einval sk
with_scope w mem cmd (some prefixlen) none sk = failed einval sk

pub read_command : World → Memory → Bool → Option Cmd → Md5Sock → Result
read_command w mem ext none sk = failed efault sk
read_command w mem ext (some cmd) sk =
    if cmd.family == af_inet
    then with_scope w mem cmd (prefix_of ext cmd) (l3index_of w ext cmd) sk
    else failed einval sk

pub tcp_v4_parse_md5_keys : World → Memory → Call → Md5Sock → Result
tcp_v4_parse_md5_keys w mem c sk =
    if ltb c.optlen w.cmd_size then failed einval sk else read_command w mem c.ext c.copied sk
