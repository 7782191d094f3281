-- ===== src/Md5.antt =====
-- The keys of TCP MD5 signatures that a socket keeps, redhat_kernel/tcp_ipv4.c: the search for an
-- address, the exact search, and the addition and the removal of a key.
pub mod Match
pub mod Table
pub mod Unique
pub mod Keep
pub mod Command
use starlink_tcp.Common.{
  ℕ, ◌+◌, ◌-◌, ◌*◌, List, [], ◌∷◌, Bool, true, false, not, ◌&&◌, ◌||◌, Option, none, some, ltb,
  ◌==◌, if◌then◌else◌, take, length,
}

-- What a key is for, and the key. `addr` has the bytes of `union tcp_md5_addr`, `ifindex` is
-- TCP_MD5SIG_FLAG_IFINDEX of `flags`.
pub record Scope : Type 0 where
  pub addr : List ℕ
  pub family : ℕ
  pub prefixlen : ℕ
  pub l3index : ℕ
  pub ifindex : Bool

pub record Key : Type 0 where
  pub scope : Scope
  pub key : List ℕ

abbrev pub af_inet : ℕ
af_inet = 2

abbrev pub af_inet6 : ℕ
af_inet6 = 10

-- A key for a device beats one for none; of two such the longer prefix wins.
unfoldable pub better_md5_match : Option Key → Key → Bool
better_md5_match none new = true
better_md5_match (some old) new =
    let ol = old.scope.l3index in
    let nl = new.scope.l3index in
    if not (ol == 0) && nl == 0
    then false
    else if ol == 0 && not (nl == 0)
    then true
    else ltb old.scope.prefixlen new.scope.prefixlen

-- The comparison of two addresses under a mask: that of `inet_make_mask` and `ipv6_prefix_equal`.
pub record Masks : Type 0 where
  pub inet : ℕ → List ℕ → List ℕ → Bool
  pub inet6 : ℕ → List ℕ → List ℕ → Bool

-- Whether a key serves an address of a device, `any_l3index` any device's.
pub serves : Masks → ℕ → List ℕ → ℕ → Bool → Key → Bool
serves m l3index addr family any_l3index k =
    let s = k.scope in
    if not (s.family == family)
    then false
    else if not any_l3index && s.ifindex && not (s.l3index == l3index)
    then false
    else if family == af_inet
    then m.inet s.prefixlen s.addr addr
    else if family == af_inet6
    then m.inet6 s.prefixlen s.addr addr
    else false

-- The loop over the list, with the best key so far.
pub best_of : (Key → Bool) → Option Key → List Key → Option Key
best_of fits best [] = best
best_of fits best (k ∷ ks) =
    best_of fits (if fits k && better_md5_match best k then some k else best) ks

-- What the socket keeps: `md5sig_info`, memory charged, users of the pool of hashes, and whether
-- segmentation offload is off.
pub record Md5Sock : Type 0 where
  pub md5sig_info : Option (List Key)
  pub omem_alloc : ℕ
  pub sigpool : ℕ
  pub gso_disabled : Bool

pub tcp_md5_do_lookup : Masks → Md5Sock → ℕ → List ℕ → ℕ → Bool → Option Key
tcp_md5_do_lookup m sk l3index addr family any_l3index = elim sk.md5sig_info [
  | none ↦ none
  | some keys ↦ best_of (serves m l3index addr family any_l3index) none keys
]

-- `memcmp` of as many bytes.
abbrev pub same_bytes : List ℕ → List ℕ → Bool
same_bytes [] [] = true
same_bytes (x ∷ xs) (y ∷ ys) = x == y && same_bytes xs ys
same_bytes _ _ = false

abbrev pub addr_size : ℕ → ℕ
addr_size family = if family == af_inet6 then 16 else 4

-- The ifindex bits agree.
abbrev pub same_bit : Bool → Bool → Bool
same_bit true b = b
same_bit false b = not b

unfoldable pub exact : Scope → Key → Bool
exact s k =
    let t = k.scope in
    t.family == s.family
    && same_bit t.ifindex s.ifindex
    && t.l3index == s.l3index
    && same_bytes (take (addr_size s.family) t.addr) (take (addr_size s.family) s.addr)
    && t.prefixlen == s.prefixlen

abbrev pub find : (Key → Bool) → List Key → Option Key
find f [] = none
find f (k ∷ ks) = if f k then some k else find f ks

unfoldable pub tcp_md5_do_lookup_exact : Md5Sock → Scope → Option Key
tcp_md5_do_lookup_exact sk s = elim sk.md5sig_info [ none ↦ none | some keys ↦ find (exact s) keys ]

-- What memory and the kernel give: a pool of hashes, the list's head, a key's memory, and a use of
-- the static branch `tcp_md5_needed`.
pub record Memory : Type 0 where
  pub has_sigpool : Bool
  pub has_info : Bool
  pub has_key : Bool
  pub counts_needed : Bool
  pub key_size : ℕ

pub data Errno : Type 0 where
  enomem eusers enoent einval efault ekeyrejected : Errno

pub data Result : Type 0 where
  done : Md5Sock → Result
  failed : Errno → Md5Sock → Result

-- The key of an entry that is there is overwritten in place.
unfoldable pub overwritten : Scope → List ℕ → List Key → List Key
overwritten s newkey [] = []
overwritten s newkey (k ∷ ks) =
    let rest = overwritten s newkey ks in
    if exact s k then record k { key = newkey } ∷ ks else k ∷ rest

unfoldable pub add_found : Memory → Scope → List ℕ → List Key → Md5Sock → Option Key → Result
add_found mem s newkey keys sk (some k) =
    done (record sk { md5sig_info = some (overwritten s newkey keys) })
add_found mem s newkey keys sk none =
    if mem.has_key
    then done (record sk {
      md5sig_info = some (record { scope = s; key = newkey } ∷ keys);
      omem_alloc = sk.omem_alloc + mem.key_size;
    })
    else failed enomem sk

unfoldable pub add_key : Memory → Scope → List ℕ → List Key → Md5Sock → Result
add_key mem s newkey keys sk = add_found mem s newkey keys sk (find (exact s) keys)

-- `tcp_md5_do_add` for the list that the socket has: where it has none, the pool and the list come
-- first. `sk_gso_disable` of `tcp_md5sig_info_add` is not undone.
unfoldable pub add_to : Memory → Scope → List ℕ → Md5Sock → Option (List Key) → Result
add_to mem s newkey sk (some keys) = add_key mem s newkey keys sk
add_to mem s newkey sk none =
    if not mem.has_sigpool || not mem.has_info
    then failed enomem sk
    else if not mem.counts_needed
    then failed eusers (record sk { gso_disabled = true })
    else add_key mem s newkey []
        (record sk { md5sig_info = some []; sigpool = sk.sigpool + 1; gso_disabled = true })

unfoldable pub tcp_md5_do_add : Memory → Scope → List ℕ → Md5Sock → Result
tcp_md5_do_add mem s newkey sk = add_to mem s newkey sk sk.md5sig_info

-- It differs from `tcp_md5_do_add` in that the pool of hashes is there.
unfoldable pub tcp_md5_key_copy : Memory → Scope → Key → Md5Sock → Result
tcp_md5_key_copy mem s k sk =
    tcp_md5_do_add (record mem { has_sigpool = true }) (record s { ifindex = k.scope.ifindex })
      k.key sk

unfoldable pub removed : Scope → List Key → List Key
removed s [] = []
removed s (k ∷ ks) = let rest = removed s ks in if exact s k then ks else k ∷ rest

unfoldable pub del_found : Memory → Scope → List Key → Md5Sock → Option Key → Result
del_found mem s keys sk none = failed enoent sk
del_found mem s keys sk (some k) =
    done
      (record sk { md5sig_info = some (removed s keys); omem_alloc = sk.omem_alloc - mem.key_size })

-- The exact search of a socket without a list finds nothing.
unfoldable pub del_from : Memory → Scope → Md5Sock → Option (List Key) → Result
del_from mem s sk none = failed enoent sk
del_from mem s sk (some keys) = del_found mem s keys sk (find (exact s) keys)

unfoldable pub tcp_md5_do_del : Memory → Scope → Md5Sock → Result
tcp_md5_do_del mem s sk = del_from mem s sk sk.md5sig_info

-- Its caller has a list.
tcp_clear_md5_list : Memory → Md5Sock → Md5Sock
tcp_clear_md5_list mem sk = elim sk.md5sig_info [
  | none ↦ sk
  | some keys ↦ record sk {
    md5sig_info = some [];
    omem_alloc = sk.omem_alloc - mem.key_size * length keys;
  }
]
