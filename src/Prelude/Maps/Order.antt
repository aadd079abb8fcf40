-- ===== src/Prelude/Maps/Order.antt =====
-- Maps stand in the order of their keys, and what loops over a map's entries remove.
use mathlib.Core.Path.{◌≡◌, refl, subst}
use mathlib.Core.Bool.{Bool, true, false}
use mathlib.Core.Logic.{inl, inr}
use mathlib.Core.Option.{Option, none, some}
use mathlib.Core.List.{List, [], ◌∷◌}
use native.Mathlib.Omega.{arith}
use open_crank.Prelude.Tests.{if◌then◌else◌, Bool-cases}
use open_crank.Prelude.Lists.{any}
use open_crank.Prelude.Maps.{Key, Map, lookup, insert, erase, lookup-erase}

-- `lookup` after a loop that erases the entries whose value fails the test.
abbrev pub drop_if {ℓ} : {V : Type ℓ} → (V → Bool) → Option V → Option V
drop_if p none = none
drop_if p (some v) = if p v then none else some v

module _ {ℓ} {K : Type 0} {V : Type ℓ} ⦃o : Key K⦄ where
  abbrev pub Above : K → Map K V → Type 0
  Above k [] = Unit
  Above k ((j, v) ∷ m) = (o.blt k j ≡ true) × Above k m

  -- Each key is below all that follow it.
  abbrev pub Ascending : Map K V → Type 0
  Ascending [] = Unit
  Ascending ((k, v) ∷ m) = Above k m × Ascending m

  Above-trans : (k j : K) (m : Map K V) → o.blt k j ≡ true → Above j m → Above k m
  Above-trans k j [] h a = tt
  Above-trans k j ((i, v) ∷ m) h (a, as') = (o.blt_trans k j i h a, Above-trans k j m h as')

  Above-insert :
      (k j : K) (v : V) (m : Map K V) → o.blt k j ≡ true → Above k m → Above k (insert j v m)
  unfolding insert
  Above-insert k j v [] h a = (h, tt)
  Above-insert k j v ((i, w) ∷ m) h (a, as') = elim (Bool-cases (o.beq i j)) [
    | inl e ↦ rw e (h, as')
    | inr e ↦ elim (Bool-cases (o.blt j i)) [
      | inl l ↦ rw (e, l) (h, (a, as'))
      | inr l ↦ rw (e, l) (a, Above-insert k j v m h as')
    ]
  ]

  pub insert-Ascending : (k : K) (v : V) (m : Map K V) → Ascending m → Ascending (insert k v m)
  unfolding insert
  insert-Ascending k v [] h = (tt, tt)
  insert-Ascending k v ((j, w) ∷ m) (a, h) = elim (Bool-cases (o.beq j k)) [
    | inl e ↦ rw e (subst (λ i. Above i m) ((o.beq_iff j k).0 e) a, h)
    | inr e ↦ elim (Bool-cases (o.blt k j)) [
      | inl l ↦ rw (e, l) ((l, Above-trans k j m l a), (a, h))
      | inr l ↦
          rw (e, l)
            (Above-insert j k v m (o.blt_total k j (beq_swap k j e) l) a, insert-Ascending k v m h)
    ]
  ]
    where
      beq_swap : (a b : K) → o.beq b a ≡ false → o.beq a b ≡ false
      beq_swap a b e = ground (arith, o.beq_iff a b, o.beq_iff b a)

  Above-erase : (k j : K) (m : Map K V) → Above k m → Above k (erase j m)
  unfolding erase
  Above-erase k j [] a = tt
  Above-erase k j ((i, w) ∷ m) (a, as') = elim (Bool-cases (o.beq i j)) [
    | inl e ↦ rw e (Above-erase k j m as')
    | inr e ↦ rw e (a, Above-erase k j m as')
  ]

  pub erase-Ascending : (k : K) (m : Map K V) → Ascending m → Ascending (erase k m)
  unfolding erase
  erase-Ascending k [] h = tt
  erase-Ascending k ((j, w) ∷ m) (a, h) = elim (Bool-cases (o.beq j k)) [
    | inl e ↦ rw e (erase-Ascending k m h)
    | inr e ↦ rw e (Above-erase j k m a, erase-Ascending k m h)
  ]

  -- A key below the rest of a map is not in the rest.
  pub lookup-Above : (k : K) (m : Map K V) → Above k m → lookup k m ≡ none
  unfolding lookup
  lookup-Above k [] a = refl
  lookup-Above k ((j, v) ∷ m) (a, as') =
      ground (arith, o.beq_iff j k, o.blt_irrefl k, lookup-Above k m as')

  -- The keys whose value passes the test, as a loop over the map collects them.
  unfoldable pub keys_where : (V → Bool) → Map K V → List K
  keys_where p [] = []
  keys_where p ((k, v) ∷ m) = if p v then k ∷ keys_where p m else keys_where p m

  -- `for (key : ks) m.erase(key);`
  unfoldable pub erase_all : List K → Map K V → Map K V
  erase_all [] m = m
  erase_all (k ∷ ks) m = erase_all ks (erase k m)

  lookup-erase_all :
      (ks : List K) (j : K) (m : Map K V)
      → lookup j (erase_all ks m) ≡ (if any (o.beq j) ks then none else lookup j m)
  unfolding erase_all
  lookup-erase_all [] j m = refl
  lookup-erase_all (k ∷ ks) j m =
      ground
        (arith, lookup-erase_all ks j (erase k m), lookup-erase k j m, o.beq_iff k j, o.beq_iff j k)

  pub any-keys_where :
      (p : V → Bool) (j : K) (m : Map K V)
      → Ascending m
      → any (o.beq j) (keys_where p m) ≡ (elim (lookup j m) [ none ↦ false | some v ↦ p v ])
  unfolding keys_where lookup
  any-keys_where p j [] h = refl
  any-keys_where p j ((k, v) ∷ m) (a, h) = elim (Bool-cases (o.beq k j)) [
    | inl e ↦
        let same = (o.beq_iff k j).0 e in
        let gone : lookup j m ≡ none = lookup-Above j m (subst (λ i. Above i m) same a) in
        ground (arith, any-keys_where p j m h, o.beq_iff j k, gone)
    | inr e ↦ ground (arith, any-keys_where p j m h, o.beq_iff j k, o.beq_iff k j)
  ]

  -- Erasing every entry that the loop collected leaves exactly the others.
  pub lookup-erase_where :
      (p : V → Bool) (j : K) (m : Map K V)
      → Ascending m
      → lookup j (erase_all (keys_where p m) m) ≡ drop_if p (lookup j m)
  lookup-erase_where p j m h =
      ground (arith, lookup-erase_all (keys_where p m) j m, any-keys_where p j m h)

  pub erase_all-Ascending : (ks : List K) (m : Map K V) → Ascending m → Ascending (erase_all ks m)
  unfolding erase_all
  erase_all-Ascending [] m h = h
  erase_all-Ascending (k ∷ ks) m h = erase_all-Ascending ks (erase k m) (erase-Ascending k m h)
