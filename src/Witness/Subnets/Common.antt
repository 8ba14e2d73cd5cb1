-- ===== src/Witness/Subnets/Common.antt =====
-- `networksOverlap` of app/witness/conflicts.rules.go against the addresses of two networks.
use deploy_witness_cli.Prelude.{
  ℕ, zero, suc, ◌-◌, ◌≤◌, ◌≡◌, refl, sym, ◌↔◌, inl, inr, Bool, true, false, ◌||◌, [], ◌∷◌, ◌++◌,
  arith, Bool-cases, length, length-append,
}
use deploy_witness_cli.Witness.Subnets.{
  Address, IpNet, zeros, same_bit, begins_with, base_of, contains, networks_overlap,
}

-- A network whose mask is no longer than its addresses.
abbrev pub IsNet : IpNet → Type 0
IsNet n = length n.prefix ≤ n.width

zeros-length : (n : ℕ) → length (zeros n) ≡ n
unfolding zeros
zeros-length zero = refl
zeros-length (suc n) = omega (arith, zeros-length n)

begins-append : (p a : Address) → begins_with p (p ++ a) ≡ true
unfolding begins_with
begins-append [] a = refl
begins-append (true ∷ p) a = begins-append p a
begins-append (false ∷ p) a = begins-append p a

begins-longer : (p q a : Address) → begins_with p q ≡ true → begins_with p (q ++ a) ≡ true
unfolding begins_with
begins-longer [] q a h = refl
begins-longer (b ∷ p) [] a h = cc h
begins-longer (b ∷ p) (c ∷ q) a h =
    let ih = begins-longer p q a (ground (arith, h)) in ground (arith, h, ih)

-- Of two prefixes of one address, one is a prefix of the other.
nested :
    (p q a : Address)
    → begins_with p a ≡ true
    → begins_with q a ≡ true
    → (begins_with p q || begins_with q p) ≡ true
unfolding begins_with
nested [] q a h k = refl
nested (b ∷ p) [] a h k = ground arith
nested (b ∷ p) (c ∷ q) [] h k = cc h
nested (b ∷ p) (c ∷ q) (d ∷ a) h k =
    let ih = nested p q a (ground (arith, h)) (ground (arith, k)) in
    let x : same_bit b d ≡ true = ground (arith, h) in
    let y : same_bit c d ≡ true = ground (arith, k) in
    let e = bits b c d x y in ground (arith, ih, e)
  where
    bits :
        (b c d : Bool)
        → same_bit b d ≡ true
        → same_bit c d ≡ true
        → (same_bit b c ≡ true) × (same_bit c b ≡ true)
    bits true true d x y = (refl, refl)
    bits false false d x y = (refl, refl)
    bits true false d x y = cc (x, y)
    bits false true d x y = cc (x, y)

base_of-length : (n : IpNet) → IsNet n → length (base_of n) ≡ n.width
unfolding base_of
base_of-length n h =
    let x = length-append n.prefix (zeros (n.width - length n.prefix)) in
    let y = zeros-length (n.width - length n.prefix) in omega (arith, x, y, h)

-- A network contains its first address.
contains-base_of : (n : IpNet) → IsNet n → contains n (base_of n) ≡ true
unfolding contains base_of
contains-base_of n h =
    let x = base_of-length n h in
    let y = begins-append n.prefix (zeros (n.width - length n.prefix)) in ground (arith, x, y)

prefix-contains :
    (a b : IpNet)
    → IsNet b
    → a.width ≡ b.width
    → begins_with a.prefix b.prefix ≡ true
    → contains a (base_of b) ≡ true
unfolding contains base_of
prefix-contains a b h w p =
    let x = base_of-length b h in
    let y = begins-longer a.prefix b.prefix (zeros (b.width - length b.prefix)) p in
    ground (arith, x, y, w)

overlap_common :
    (a b : IpNet)
    → IsNet a
    → IsNet b
    → networks_overlap a b ≡ true
    → (ip : Address) × ((contains a ip ≡ true) × (contains b ip ≡ true))
unfolding networks_overlap
overlap_common a b h k o = elim (Bool-cases (contains a (base_of b))) [
  | inl c ↦ (base_of b, (c, contains-base_of b k))
  | inr c ↦ (base_of a, (contains-base_of a h, ground (arith, o, c)))
]

common_overlap :
    (a b : IpNet) (ip : Address)
    → IsNet a
    → IsNet b
    → contains a ip ≡ true
    → contains b ip ≡ true
    → networks_overlap a b ≡ true
unfolding networks_overlap contains
common_overlap a b ip h k x y =
    let w : a.width ≡ b.width = ground (arith, x, y) in
    let n = nested a.prefix b.prefix ip (ground (arith, x)) (ground (arith, y)) in
    elim (Bool-cases (begins_with a.prefix b.prefix)) [
      | inl p ↦ let c = prefix-contains a b k w p in ground (arith, c)
      | inr p ↦ let c = prefix-contains b a h (sym w) (ground (arith, n, p)) in ground (arith, c)
    ]

-- Two networks overlap, as the code decides it from their first addresses, exactly if some address is
-- in both of them.
pub networks_overlap_iff :
    (a b : IpNet)
    → IsNet a
    → IsNet b
    → (networks_overlap a b ≡ true)
      ↔ ((ip : Address) × ((contains a ip ≡ true) × (contains b ip ≡ true)))
networks_overlap_iff a b h k =
    (λ o. overlap_common a b h k o, λ p. common_overlap a b p.0 h k p.1.0 p.1.1)
