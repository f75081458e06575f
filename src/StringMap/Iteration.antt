-- ===== src/StringMap/Iteration.antt =====
-- Loops over the entries of a map of lib/string_map.c.
use chammer.Prelude.{
  ℕ, zero, suc, ◌+◌, ◌<◌, ◌≡◌, refl, sym, ap, ◌∙◌, Option, none, some, List, [], ◌∷◌, ◌++◌, length,
  drop, drop-drop, arith,
}
use chammer.StringMap.{
  Entry, StringMap, StringMapIter, string_map_iter_begin, next_chain, at_chain,
  string_map_iter_next,
}

module _ {A : Type 0} where
  -- The entries of all buckets, in order.
  unfoldable pub entries_of : List (List (Entry A)) → List (Entry A)
  entries_of [] = []
  entries_of (chain ∷ buckets) = chain ++ entries_of buckets

  abbrev pub met : Option (Entry A) → Option (List (Entry A)) → Option (List (Entry A))
  met none rest = some []
  met (some e) none = none
  met (some e) (some es) = some (e ∷ es)

  -- `while (string_map_iter_next(&i))`, at most `n` calls, and the entries that it met.
  unfoldable pub collect : ℕ → StringMap A → StringMapIter A → Option (List (Entry A))
  unfolding string_map_iter_next
  collect zero m i = none
  collect (suc n) m i = let r = string_map_iter_next m i in met r.0 (collect n m r.1)

  abbrev tail : List (Entry A) → List (Entry A)
  tail [] = []
  tail (e ∷ es) = es

  -- The chain that is found, and the buckets behind it, hold the entries.
  next_chain-entries :
      (buckets : List (List (Entry A))) (b : ℕ)
      → (k : ℕ) × ((next_chain buckets b).0 ≡ b + k)
        × (entries_of buckets ≡ (next_chain buckets b).1 ++ entries_of (drop k buckets))
  unfolding next_chain entries_of
  next_chain-entries [] b = (0, omega arith, refl)
  next_chain-entries ([] ∷ buckets) b =
      let (k, at, same) = next_chain-entries buckets (suc b) in (suc k, omega (arith, at), same)
  next_chain-entries ((e ∷ chain) ∷ buckets) b = (1, omega arith, refl)

  next_chain-none :
      (buckets : List (List (Entry A))) (b : ℕ)
      → (next_chain buckets b).1 ≡ []
      → entries_of buckets ≡ []
  unfolding next_chain entries_of
  next_chain-none [] b e = refl
  next_chain-none ([] ∷ buckets) b e = next_chain-none buckets (suc b) e
  next_chain-none ((d ∷ chain) ∷ buckets) b e = absurd (cc)

  -- The entries that an iterator has still to meet.
  abbrev remaining : StringMap A → StringMapIter A → List (Entry A)
  remaining m i = tail i.rest ++ entries_of (drop i.bucket m.buckets)

  -- The chain that is found holds what comes next.
  found_chain :
      (m : StringMap A) (bucket : ℕ)
      → let (b, chain) = next_chain (drop bucket m.buckets) bucket in
        entries_of (drop bucket m.buckets) ≡ chain ++ entries_of (drop b m.buckets)
  found_chain m bucket =
      let (k, at, same) = next_chain-entries (drop bucket m.buckets) bucket in
      let place : k + bucket ≡ (next_chain (drop bucket m.buckets) bucket).0 = omega (arith, at) in
      same
      ∙ ap
          (λ (bs : List (List (Entry A))).
            (next_chain (drop bucket m.buckets) bucket).1 ++ entries_of bs)
          (drop-drop k bucket m.buckets ∙ ap (λ b. drop b m.buckets) place)

  abbrev Collects : ℕ → StringMap A → Type 0
  Collects n m =
      (bucket : ℕ) (rest : List (Entry A))
      → length (tail rest ++ entries_of (drop bucket m.buckets)) < n
      → collect n m (record { bucket = bucket; rest = rest })
        ≡ some (tail rest ++ entries_of (drop bucket m.buckets))

  -- At the end of a chain the loop goes on with the next one.
  collect-next_chain :
      (n : ℕ) (m : StringMap A) (bucket : ℕ)
      → Collects n m
      → length (entries_of (drop bucket m.buckets)) < suc n
      → (let r = at_chain (next_chain (drop bucket m.buckets) bucket) in met r.0 (collect n m r.1))
        ≡ some (entries_of (drop bucket m.buckets))
  collect-next_chain n m bucket ih lt =
      go (next_chain (drop bucket m.buckets) bucket).0 (next_chain (drop bucket m.buckets) bucket).1
        (next_chain-none (drop bucket m.buckets) bucket) (found_chain m bucket)
    where
      go :
          (b : ℕ) (chain : List (Entry A))
          → (chain ≡ [] → entries_of (drop bucket m.buckets) ≡ [])
          → entries_of (drop bucket m.buckets) ≡ chain ++ entries_of (drop b m.buckets)
          → (let r = at_chain (b, chain) in met r.0 (collect n m r.1))
            ≡ some (entries_of (drop bucket m.buckets))
      go b [] stop all = ap some (sym (stop refl))
      go b (e ∷ chain) stop all =
          let size = ap length all in
          ap (met (some e)) (ih b (e ∷ chain) (omega (arith, lt, size))) ∙ ap some (sym all)

  collect-remaining : (n : ℕ) (m : StringMap A) → Collects n m
  unfolding collect string_map_iter_next
  collect-remaining zero m bucket rest lt = elim lt [ ]
  collect-remaining (suc n) m bucket (e ∷ d ∷ chain) lt =
      ap (met (some d)) (collect-remaining n m bucket (d ∷ chain) (omega (arith, lt)))
  collect-remaining (suc n) m bucket [] lt =
      collect-next_chain n m bucket (collect-remaining n m) lt
  collect-remaining (suc n) m bucket (e ∷ []) lt =
      collect-next_chain n m bucket (collect-remaining n m) lt

  -- One call for each entry and one more meet every entry, in the order of the buckets, each once,
  -- and then stop.
  pub collect-all :
      (m : StringMap A)
      → collect (suc (length (entries_of m.buckets))) m string_map_iter_begin
        ≡ some (entries_of m.buckets)
  collect-all m = collect-remaining (suc (length (entries_of m.buckets))) m 0 [] (omega arith)
