-- ===== src/Agent/Recover/Laws.antt =====
-- The loop that strips code fences ends by itself.
use open_crank.Prelude.{
  Option-cases, Bytes, codes, length, take, drop, length-append, length-take, length-drop, ℕ, zero,
  suc, ◌+◌, ◌≤◌, ◌≡◌, refl, inl, inr, none, [], ◌∷◌, ◌++◌, arith,
}
use open_crank.Text.Find.{find}
use open_crank.Text.Find.Laws.{IsFirst, find-IsFirst}
use open_crank.Agent.Recover.{strip_fences}

abbrev fence : Bytes
fence = codes "```"

-- Fuel for each byte is enough: no fence is left.
strip_fences_enough :
    (fuel : ℕ) (s : Bytes) → length s ≤ fuel → find fence (strip_fences fuel s) ≡ none
unfolding strip_fences find
strip_fences_enough zero [] le = refl
strip_fences_enough zero (c ∷ s) le = ground (arith)
strip_fences_enough (suc fuel) s le = elim (Option-cases (find fence s)) [
  | inl e ↦ rw (strip_fences, e) e
  | inr (i, e) ↦
      let is_first : IsFirst fence s i = find-IsFirst fence s i e in
      let shorter : length (take i s ++ drop (i + 3) s) ≤ fuel = omega (
        arith,
        le,
        is_first.fits,
        length-append (take i s) (drop (i + 3) s),
        length-take i s,
        length-drop (i + 3) s,
      ) in
      rw (strip_fences, e) (strip_fences_enough fuel (take i s ++ drop (i + 3) s) shorter)
]
