-- ===== src/Md5/Match.antt =====
-- The search for an address among the MD5 keys of redhat_kernel/tcp_ipv4.c finds a best key.
use starlink_tcp.Common.{
  ℕ, ◌≡◌, refl, arith, List, [], ◌∷◌, Bool, true, false, ◌&&◌, Option, none, some, ◌⊎◌, if-cases,
  if◌then◌else◌, inl, inr,
}
use starlink_tcp.Md5.{Key, Masks, Md5Sock, better_md5_match, serves, best_of, tcp_md5_do_lookup}

-- No key of the list that serves beats `best`.
abbrev pub Unbeaten : (Key → Bool) → Option Key → List Key → Type 0
Unbeaten fits best [] = Unit
Unbeaten fits best (k ∷ ks) = ((fits k && better_md5_match best k) ≡ false) × Unbeaten fits best ks

-- The key found is one of the list's that serve.
abbrev pub Among : (Key → Bool) → Option Key → List Key → Type 0
Among fits none ks = Unit
Among fits (some b) [] = ⊥
Among fits (some b) (k ∷ ks) = ((b ≡ k) × (fits k ≡ true)) ⊎ Among fits (some b) ks

-- To beat a key that beats another is to beat the other.
better_trans :
    (a : Option Key) (b c : Key)
    → better_md5_match a b ≡ true
    → better_md5_match a c ≡ false
    → better_md5_match (some b) c ≡ false
unfolding better_md5_match
better_trans none b c x y = cc
better_trans (some a) b c x y = ground arith

better_irrefl : (k : Key) → better_md5_match (some k) k ≡ false
unfolding better_md5_match
better_irrefl k = ground arith

and-false : (a b : Bool) → (a ≡ true → b ≡ false) → (a && b) ≡ false
and-false true b f = f refl
and-false false b f = refl

and-split : (a b : Bool) → (a && b) ≡ true → (a ≡ true) × (b ≡ true)
and-split a b e = (ground arith, ground arith)

and-right : (a b : Bool) → (a && b) ≡ false → a ≡ true → b ≡ false
and-right a b e f = ground arith

module _ (fits : Key → Bool) where
  -- What does not beat the key so far does not beat the next one.
  next-keeps :
      (best : Option Key) (k c : Key)
      → (fits c && better_md5_match best c) ≡ false
      → (fits c && better_md5_match (if fits k && better_md5_match best k then some k else best) c)
        ≡ false
  next-keeps best k c h =
      if-cases (λ (o : Option Key). (fits c && better_md5_match o c) ≡ false)
        (fits k && better_md5_match best k)
        (λ e.
          and-false (fits c) _
            (λ f. better_trans best k c (and-split (fits k) _ e).1 (and-right (fits c) _ h f)))
        (λ _. h)

  best_of-keeps :
      (best : Option Key) (ks : List Key) (c : Key)
      → (fits c && better_md5_match best c) ≡ false
      → (fits c && better_md5_match (best_of fits best ks) c) ≡ false
  unfolding best_of
  best_of-keeps best [] c h = h
  best_of-keeps best (k ∷ ks) c h =
      best_of-keeps (if fits k && better_md5_match best k then some k else best) ks c
        (next-keeps best k c h)

  best_of-Unbeaten : (best : Option Key) (ks : List Key) → Unbeaten fits (best_of fits best ks) ks
  unfolding best_of
  best_of-Unbeaten best [] = tt
  best_of-Unbeaten best (k ∷ ks) =
      let next = if fits k && better_md5_match best k then some k else best in
      (
        best_of-keeps next ks k (
            if-cases (λ (o : Option Key). (fits k && better_md5_match o k) ≡ false)
              (fits k && better_md5_match best k) (λ _. and-false (fits k) _ (λ _. better_irrefl k))
              (λ e. e)),
        best_of-Unbeaten next ks,
      )

  Among-later : (o : Option Key) (k : Key) (ks : List Key) → Among fits o ks → Among fits o (k ∷ ks)
  Among-later none k ks a = tt
  Among-later (some b) k ks a = inr a

  best_of-Among :
      (best : Option Key) (ks : List Key)
      → (best_of fits best ks ≡ best) ⊎ Among fits (best_of fits best ks) ks
  unfolding best_of
  best_of-Among best [] = inl refl
  best_of-Among best (k ∷ ks) =
      if-cases
        (λ (o : Option Key). (best_of fits o ks ≡ best) ⊎ Among fits (best_of fits o ks) (k ∷ ks))
        (fits k && better_md5_match best k)
        (λ e. elim (best_of-Among (some k) ks) [
          | inl same ↦ inr (rw same (inl (refl, (and-split (fits k) _ e).0)))
          | inr a ↦ inr (Among-later (best_of fits (some k) ks) k ks a)
        ])
        (λ _. elim (best_of-Among best ks) [
          | inl same ↦ inl same
          | inr a ↦ inr (Among-later (best_of fits best ks) k ks a)
        ])

-- The key found for an address is one of the socket's that serve it, and no key that serves it is a
-- better match; none is found only where no key serves.
pub tcp_md5_do_lookup-best :
    (m : Masks) (sk : Md5Sock) (keys : List Key) (l3index : ℕ) (addr : List ℕ) (family : ℕ)
    (any_l3index : Bool)
    → sk.md5sig_info ≡ some keys
    → let fits = serves m l3index addr family any_l3index in
      let found = tcp_md5_do_lookup m sk l3index addr family any_l3index in
      Unbeaten fits found keys × Among fits found keys
unfolding tcp_md5_do_lookup
tcp_md5_do_lookup-best m sk keys l3index addr family any_l3index e =
    let fits = serves m l3index addr family any_l3index in
    let found : tcp_md5_do_lookup m sk l3index addr family any_l3index ≡ best_of fits none keys =
      rw (e, tcp_md5_do_lookup) refl in
    rw found (
      best_of-Unbeaten fits none keys,
      elim (best_of-Among fits none keys) [ inl n ↦ rw n tt | inr a ↦ a ],
    )
