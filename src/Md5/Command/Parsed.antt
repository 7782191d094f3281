-- ===== src/Md5/Command/Parsed.antt =====
-- What a socket option of redhat_kernel/tcp_ipv4.c does to the MD5 keys of a socket.
use starlink_tcp.Common.{
  ℕ, ◌≤◌, ◌≡◌, ◌≢◌, refl, sym, Bool-cases, inl, inr, true, false, not, arith, List, Bool, ◌&&◌,
  Option, none, some, some-injective, ltb, ◌==◌, if-cases, if◌then◌else◌,
}
use starlink_tcp.Md5.{Scope, Md5Sock, af_inet, Memory, Result, done, failed}
use starlink_tcp.Md5.Unique.{IsDistinct}
use starlink_tcp.Md5.Keep.{
  keys_of, key_for, IsUpdate, added, deleted, tcp_md5_do_add-IsUpdate, tcp_md5_do_del-IsUpdate,
}
use starlink_tcp.Md5.Command.{
  Cmd, Call, World, prefix_of, l3index_of, nonzero, command, with_scope, read_command,
  tcp_v4_parse_md5_keys,
}

-- The device of a scope, which is asked for with TCP_MD5SIG_EXT, an index and the flag for it: the
-- L3 master that the index names, which is not 0; else 0.
abbrev pub IsDevice : Bool → Option ℕ → ℕ → Type 0
IsDevice true master n = (master ≡ some n) × (n ≢ 0)
IsDevice false master n = n ≡ 0

-- The scope that a command names: its prefix counts with TCP_MD5SIG_EXT and the flag for it, and is
-- the whole address otherwise.
pub record IsScope (w : World) (ext : Bool) (cmd : Cmd) (s : Scope) : Type 0 where
  pub addr : s.addr ≡ cmd.addr
  pub family : (s.family ≡ af_inet) × (cmd.family ≡ af_inet)
  pub prefixlen : s.prefixlen ≡ (if ext && cmd.flag_prefix then cmd.prefixlen else 32)
  pub short : s.prefixlen ≤ 32
  pub l3index :
      IsDevice
        (ext && not (cmd.ifindex == 0) && cmd.flag_ifindex)
        (w.l3_master cmd.ifindex)
        s.l3index
  pub ifindex : s.ifindex ≡ cmd.flag_ifindex

-- What a successful call leaves: the key of its command, or none where that has none.
abbrev pub IsParsed : World → Call → Md5Sock → Result → Type 0
IsParsed w c sk (failed e next) = IsUpdate sk (key_for sk) (failed e next)
IsParsed w c sk (done next) =
    (cmd : Cmd) × (s : Scope) × (c.copied ≡ some cmd)
    × (w.cmd_size ≤ c.optlen)
    × IsScope w c.ext cmd s
    × (cmd.keylen ≤ w.max_keylen)
    × IsUpdate sk (if cmd.keylen == 0 then deleted sk s else added sk s cmd.key) (done next)

module _ (w : World) (mem : Memory) (c : Call) (sk : Md5Sock)
    (d : IsDistinct (keys_of sk.md5sig_info)) (long : w.cmd_size ≤ c.optlen) where
  -- An update by a command with a valid scope.
  update-IsParsed :
      (cmd : Cmd) (s : Scope) (after : Scope → Option (List ℕ)) (r : Result)
      → c.copied ≡ some cmd
      → (if cmd.keylen == 0 then deleted sk s else added sk s cmd.key) ≡ after
      → cmd.keylen ≤ w.max_keylen
      → IsScope w c.ext cmd s
      → IsUpdate sk after r
      → IsParsed w c sk r
  update-IsParsed cmd s after (done next) o e l i u = (cmd, s, o, long, i, l, rw e u)
  update-IsParsed cmd s after (failed x next) o e l i u = u

  command-IsParsed :
      (cmd : Cmd) (s : Scope)
      → c.copied ≡ some cmd
      → IsScope w c.ext cmd s
      → IsParsed w c sk (command w mem cmd s sk)
  unfolding command
  command-IsParsed cmd s o i =
      let Q : Result → Type 0 = IsParsed w c sk in
      if-cases Q (cmd.keylen == 0)
        (λ e.
          update-IsParsed cmd s (deleted sk s) _ o (rw e refl) (ground arith) i
            (tcp_md5_do_del-IsUpdate mem s sk d))
        (λ e.
          if-cases Q (ltb w.max_keylen cmd.keylen) (λ _. (λ t. refl, d, refl))
            (λ l.
              if-cases Q
                (w.ao_required cmd.addr (if cmd.flag_ifindex then some s.l3index else none))
                (λ _. (λ t. refl, d, refl))
                (λ _.
                  update-IsParsed cmd s (added sk s cmd.key) _ o (rw e refl) (ground arith) i
                    (tcp_md5_do_add-IsUpdate mem s cmd.key sk d))))

  with_scope-IsParsed :
      (cmd : Cmd) (p l : Option ℕ)
      → c.copied ≡ some cmd
      → ((n : ℕ)
          → p ≡ some n
          → (n ≡ (if c.ext && cmd.flag_prefix then cmd.prefixlen else 32)) × (n ≤ 32))
      → ((n : ℕ)
          → l ≡ some n
          → IsDevice
              (c.ext && not (cmd.ifindex == 0) && cmd.flag_ifindex)
              (w.l3_master cmd.ifindex)
              n)
      → cmd.family ≡ af_inet
      → IsParsed w c sk (with_scope w mem cmd p l sk)
  unfolding with_scope
  with_scope-IsParsed cmd (some n) (some m) o h k f = command-IsParsed cmd _ o record {
    addr = refl;
    family = (refl, f);
    prefixlen = (h n refl).0;
    short = (h n refl).1;
    l3index = k m refl;
    ifindex = refl;
  }
  with_scope-IsParsed cmd none l o h k f = (λ t. refl, d, refl)
  with_scope-IsParsed cmd (some n) none o h k f = (λ t. refl, d, refl)

  prefix_of_lem :
      (cmd : Cmd) (n : ℕ)
      → prefix_of c.ext cmd ≡ some n
      → (n ≡ (if c.ext && cmd.flag_prefix then cmd.prefixlen else 32)) × (n ≤ 32)
  unfolding prefix_of
  prefix_of_lem cmd n =
      let b = c.ext && cmd.flag_prefix in
      elim (Bool-cases b) [
        | inl e ↦ rw e (
            if-cases (λ (o : Option ℕ). o ≡ some n → (n ≡ cmd.prefixlen) × (n ≤ 32))
              (ltb 32 cmd.prefixlen) (λ _ q. cc)
              (λ l q. (
                sym (some-injective cmd.prefixlen n q),
                ground (arith, some-injective cmd.prefixlen n q),
              )))
        | inr e ↦ rw e (λ q. (sym (some-injective 32 n q), omega (arith, some-injective 32 n q)))
      ]

  nonzero_lem : (o : Option ℕ) (n : ℕ) → nonzero o ≡ some n → (o ≡ some n) × (n ≢ 0)
  nonzero_lem none n = λ e. cc
  nonzero_lem (some m) n =
      if-cases (λ (r : Option ℕ). r ≡ some n → (some m ≡ some n) × (n ≢ 0)) (m == 0) (λ _ e. cc)
        (λ z e. (e, λ q. ground (arith, some-injective m n e)))

  l3index_of-IsDevice :
      (cmd : Cmd) (n : ℕ)
      → l3index_of w c.ext cmd ≡ some n
      → IsDevice (c.ext && not (cmd.ifindex == 0) && cmd.flag_ifindex) (w.l3_master cmd.ifindex) n
  unfolding l3index_of
  l3index_of-IsDevice cmd n =
      elim (Bool-cases (c.ext && not (cmd.ifindex == 0) && cmd.flag_ifindex)) [
        | inl e ↦ rw e (nonzero_lem (w.l3_master cmd.ifindex) n)
        | inr e ↦ rw e (λ q. sym (some-injective 0 n q))
      ]

  read_command-IsParsed :
      (o : Option Cmd) → c.copied ≡ o → IsParsed w c sk (read_command w mem c.ext o sk)
  unfolding read_command
  read_command-IsParsed none e = (λ t. refl, d, refl)
  read_command-IsParsed (some cmd) e =
      if-cases (IsParsed w c sk) (cmd.family == af_inet)
        (λ f.
          with_scope-IsParsed cmd (prefix_of c.ext cmd) (l3index_of w c.ext cmd) e
            (prefix_of_lem cmd) (l3index_of-IsDevice cmd) (ground arith))
        (λ _. (λ t. refl, d, refl))

-- A socket option that succeeds was long enough for the struct, was read, and names an IPv4
-- address. Its scope is that address, with the prefix of the command if TCP_MD5SIG_EXT and the flag
-- ask for one, at most 32 bits, and all 32 bits otherwise; and with the L3 master device of the
-- command's index if TCP_MD5SIG_EXT, the flag and an index other than 0 ask for one, and device 0
-- otherwise. Its key is at most of the longest length, and the scope has this key afterwards, or no
-- key where the length is 0; every other scope keeps the key it had. After an error every scope
-- keeps its key. Either way no scope has two keys and the pool of hashes is used as often as there
-- is a list. No scope had two keys before.
pub tcp_v4_parse_md5_keys-IsParsed :
    (w : World) (mem : Memory) (c : Call) (sk : Md5Sock)
    → IsDistinct (keys_of sk.md5sig_info)
    → IsParsed w c sk (tcp_v4_parse_md5_keys w mem c sk)
unfolding tcp_v4_parse_md5_keys
tcp_v4_parse_md5_keys-IsParsed w mem c sk d =
    if-cases (IsParsed w c sk) (ltb c.optlen w.cmd_size) (λ _. (λ t. refl, d, refl))
      (λ l. read_command-IsParsed w mem c sk d (ground arith) c.copied refl)
