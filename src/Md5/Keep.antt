-- ===== src/Md5/Keep.antt =====
-- The MD5 keys of a socket of redhat_kernel/tcp_ipv4.c are a map from scopes to keys: what the
-- addition and the removal of a key leave, errors included.
use starlink_tcp.Common.{
  ℕ, ◌+◌, ◌≡◌, refl, sym, ap, ◌∙◌, arith, List, [], Bool, true, false, not, ◌||◌, Option, none,
  some, if-cases, if◌then◌else◌,
}
use starlink_tcp.Md5.{
  Scope, Key, Md5Sock, exact, find, tcp_md5_do_lookup_exact, Memory, Result, done, failed,
  add_found, add_key, add_to, tcp_md5_do_add, del_found, del_from, tcp_md5_do_del,
}
use starlink_tcp.Md5.Table.{key_of, made, find-overwritten}
use starlink_tcp.Md5.Unique.{IsDistinct, find-removed, overwritten-IsDistinct, removed-IsDistinct}

-- The bytes of the key for a scope.
abbrev pub key_for : Md5Sock → Scope → Option (List ℕ)
key_for sk t = key_of (tcp_md5_do_lookup_exact sk t)

abbrev pub keys_of : Option (List Key) → List Key
keys_of none = []
keys_of (some keys) = keys

-- A socket with a list uses the pool of hashes once.
abbrev pub users : Option (List Key) → ℕ
users none = 0
users (some keys) = 1

-- What a result promises where `after t` is the key for `t` if the call succeeds.
abbrev pub IsUpdate : Md5Sock → (Scope → Option (List ℕ)) → Result → Type 0
IsUpdate sk after (done next) =
    ((t : Scope) → key_for next t ≡ after t)
    × IsDistinct (keys_of next.md5sig_info)
    × (next.sigpool + users sk.md5sig_info ≡ sk.sigpool + users next.md5sig_info)
IsUpdate sk after (failed e next) =
    ((t : Scope) → key_for next t ≡ key_for sk t)
    × IsDistinct (keys_of next.md5sig_info)
    × (next.sigpool + users sk.md5sig_info ≡ sk.sigpool + users next.md5sig_info)

abbrev pub added : Md5Sock → Scope → List ℕ → Scope → Option (List ℕ)
added sk s newkey t = if exact t (made s newkey) then some newkey else key_for sk t

key_for-some :
    (sk : Md5Sock) (keys : List Key) (t : Scope)
    → sk.md5sig_info ≡ some keys
    → key_for sk t ≡ key_of (find (exact t) keys)
unfolding tcp_md5_do_lookup_exact
key_for-some sk keys t e = rw (e, tcp_md5_do_lookup_exact) refl

key_for-none : (sk : Md5Sock) (t : Scope) → sk.md5sig_info ≡ none → key_for sk t ≡ none
unfolding tcp_md5_do_lookup_exact
key_for-none sk t e = rw (e, tcp_md5_do_lookup_exact) refl

key_of-if :
    (b : Bool) (k : Key) (o : Option Key)
    → key_of (if b then some k else o) ≡ (if b then some k.key else key_of o)
key_of-if true k o = refl
key_of-if false k o = refl

-- The addition to a list that the socket has, or has just made.
add_found-IsUpdate :
    (mem : Memory) (s : Scope) (newkey : List ℕ) (keys : List Key) (was sk : Md5Sock)
    (o : Option Key)
    → find (exact s) keys ≡ o
    → sk.md5sig_info ≡ some keys
    → IsDistinct keys
    → ((t : Scope) → key_for sk t ≡ key_for was t)
    → sk.sigpool + users was.md5sig_info ≡ was.sigpool + 1
    → IsUpdate was (added was s newkey) (add_found mem s newkey keys sk o)
unfolding add_found tcp_md5_do_lookup_exact
add_found-IsUpdate mem s newkey keys was sk (some j) f e d same pool = (
  λ t.
      find-overwritten s t newkey keys j f
      ∙ ap (λ o. if exact t (made s newkey) then some newkey else o)
          (sym (key_for-some sk keys t e) ∙ same t),
  overwritten-IsDistinct s newkey keys d,
  pool,
)
add_found-IsUpdate mem s newkey keys was sk none f e d same pool =
    if-cases (IsUpdate was (added was s newkey)) mem.has_key
      (λ _. (
        λ t.
            key_of-if (exact t (made s newkey)) (made s newkey) (find (exact t) keys)
            ∙ ap (λ o. if exact t (made s newkey) then some newkey else o)
                (sym (key_for-some sk keys t e) ∙ same t),
        (f, d),
        pool,
      ))
      (λ _. (same, rw e d, rw e pool))

add_to-IsUpdate :
    (mem : Memory) (s : Scope) (newkey : List ℕ) (sk : Md5Sock) (o : Option (List Key))
    → sk.md5sig_info ≡ o
    → IsDistinct (keys_of o)
    → IsUpdate sk (added sk s newkey) (add_to mem s newkey sk o)
unfolding add_to add_key tcp_md5_do_lookup_exact
add_to-IsUpdate mem s newkey sk (some keys) e d =
    add_found-IsUpdate mem s newkey keys sk sk (find (exact s) keys) refl e d (λ t. refl)
      (rw e refl)
add_to-IsUpdate mem s newkey sk none e d =
    let P : Result → Type 0 = IsUpdate sk (added sk s newkey) in
    if-cases P (not mem.has_sigpool || not mem.has_info) (λ _. (λ t. refl, rw e tt, refl))
      (λ _.
        if-cases P (not mem.counts_needed) (λ _. (λ t. refl, rw e tt, refl))
          (λ _.
            add_found-IsUpdate mem s newkey [] sk
              (record sk { md5sig_info = some []; sigpool = sk.sigpool + 1; gso_disabled = true })
              none refl refl tt (λ t. sym (key_for-none sk t e)) (rw e (omega arith))))

-- After `tcp_md5_do_add` the scope has the new key and every other scope the key that it had, also
-- where an entry is overwritten; after an error every scope has the key that it had. Either way no
-- scope has two keys and the pool of hashes is used as often as sockets have a list. No scope had
-- two keys before.
pub tcp_md5_do_add-IsUpdate :
    (mem : Memory) (s : Scope) (newkey : List ℕ) (sk : Md5Sock)
    → IsDistinct (keys_of sk.md5sig_info)
    → IsUpdate sk (added sk s newkey) (tcp_md5_do_add mem s newkey sk)
unfolding tcp_md5_do_add
tcp_md5_do_add-IsUpdate mem s newkey sk d = add_to-IsUpdate mem s newkey sk sk.md5sig_info refl d

abbrev pub deleted : Md5Sock → Scope → Scope → Option (List ℕ)
deleted sk s t = if exact t (made s []) then none else key_for sk t

del_found-IsUpdate :
    (mem : Memory) (s : Scope) (keys : List Key) (sk : Md5Sock) (o : Option Key)
    → sk.md5sig_info ≡ some keys
    → IsDistinct keys
    → IsUpdate sk (deleted sk s) (del_found mem s keys sk o)
unfolding del_found tcp_md5_do_lookup_exact
del_found-IsUpdate mem s keys sk none e d = (λ t. refl, rw e d, refl)
del_found-IsUpdate mem s keys sk (some k) e d = (
  λ t.
      find-removed s t [] keys d
      ∙ ap (λ o. if exact t (made s []) then none else o) (sym (key_for-some sk keys t e)),
  removed-IsDistinct s keys d,
  rw e refl,
)

del_from-IsUpdate :
    (mem : Memory) (s : Scope) (sk : Md5Sock) (o : Option (List Key))
    → sk.md5sig_info ≡ o
    → IsDistinct (keys_of o)
    → IsUpdate sk (deleted sk s) (del_from mem s sk o)
unfolding del_from
del_from-IsUpdate mem s sk none e d = (λ t. refl, rw e tt, refl)
del_from-IsUpdate mem s sk (some keys) e d =
    del_found-IsUpdate mem s keys sk (find (exact s) keys) e d

-- After `tcp_md5_do_del` the scope has no key and every other scope the key that it had; after an
-- error every scope has the key that it had. Either way no scope has two keys and the pool of hashes
-- is used as before. No scope had two keys before.
pub tcp_md5_do_del-IsUpdate :
    (mem : Memory) (s : Scope) (sk : Md5Sock)
    → IsDistinct (keys_of sk.md5sig_info)
    → IsUpdate sk (deleted sk s) (tcp_md5_do_del mem s sk)
unfolding tcp_md5_do_del
tcp_md5_do_del-IsUpdate mem s sk d = del_from-IsUpdate mem s sk sk.md5sig_info refl d
