-- ===== src/Examples/Keys.antt =====
-- Runs of the MD5 keys of redhat_kernel/tcp_ipv4.c.
use starlink_tcp.Common.{ℕ, List, [], ◌∷◌, none, some, true, false, refl, ◌==◌}
use starlink_tcp.Md5.{
  Scope, Key, Md5Sock, Masks, Memory, serves, tcp_md5_do_lookup, exact, tcp_md5_do_add,
}
use starlink_tcp.Md5.Command.{Call, World, tcp_v4_parse_md5_keys}
use starlink_tcp.Md5.Command.Parsed.{IsParsed, tcp_v4_parse_md5_keys-IsParsed}
use starlink_tcp.Md5.Match.{Unbeaten, Among, tcp_md5_do_lookup-best}
use starlink_tcp.Md5.Keep.{IsUpdate, added, tcp_md5_do_add-IsUpdate}

-- A peer, and the network it is in.
abbrev peer : Scope
peer = record {
  addr = 10 ∷ 0 ∷ 7 ∷ 1 ∷ [];
  family = 2;
  prefixlen = 32;
  l3index = 0;
  ifindex = false;
}

abbrev network : Scope
network = record peer { addr = 10 ∷ 0 ∷ 0 ∷ 0 ∷ []; prefixlen = 8 }

abbrev keys : List Key
keys = record { scope = network; key = 1 ∷ 2 ∷ [] } ∷ record { scope = peer; key = 3 ∷ [] } ∷ []

abbrev sock : Md5Sock
sock = record { md5sig_info = some keys; omem_alloc = 256; sigpool = 1; gso_disabled = true }

-- The first byte counts up to a prefix of 8.
abbrev first_byte : List ℕ → ℕ
first_byte [] = 0
first_byte (b ∷ bs) = b

abbrev masks : Masks
masks = record { inet = λ n a b. first_byte a == first_byte b; inet6 = λ n a b. false }

tcp_md5_do_lookup-best_example :
    Unbeaten
      (serves masks 0 peer.addr 2 false)
      (tcp_md5_do_lookup masks sock 0 peer.addr 2 false)
      keys
    × Among
        (serves masks 0 peer.addr 2 false)
        (tcp_md5_do_lookup masks sock 0 peer.addr 2 false)
        keys
tcp_md5_do_lookup-best_example = tcp_md5_do_lookup-best masks sock keys 0 peer.addr 2 false refl

abbrev memory : Memory
memory = record {
  has_sigpool = true;
  has_info = true;
  has_key = true;
  counts_needed = true;
  key_size = 128;
}

-- The key of the peer is overwritten.
tcp_md5_do_add-IsUpdate_example :
    IsUpdate sock (added sock peer (9 ∷ [])) (tcp_md5_do_add memory peer (9 ∷ []) sock)
unfolding exact
tcp_md5_do_add-IsUpdate_example =
    tcp_md5_do_add-IsUpdate memory peer (9 ∷ []) sock (refl, (refl, tt))

abbrev world : World
world = record {
  cmd_size = 216;
  max_keylen = 80;
  l3_master = λ n. none;
  ao_required = λ addr l3index. false;
}

-- The option removes the key of the network.
abbrev call : Call
call = record {
  ext = true;
  optlen = 216;
  copied = some record {
    family = 2;
    addr = network.addr;
    key = [];
    keylen = 0;
    prefixlen = 8;
    ifindex = 0;
    flag_prefix = true;
    flag_ifindex = false;
  };
}

tcp_v4_parse_md5_keys-IsParsed_example :
    IsParsed world call sock (tcp_v4_parse_md5_keys world memory call sock)
unfolding exact
tcp_v4_parse_md5_keys-IsParsed_example =
    tcp_v4_parse_md5_keys-IsParsed world memory call sock (refl, (refl, tt))
