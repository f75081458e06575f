-- ===== src/StringMap/Laws.antt =====
-- The chains of lib/string_map.c: what stands in the key buffer, and what the loop finds.
use chammer.Prelude.{
  ℕ, zero, suc, ◌+◌, ◌≤◌, ◌≡◌, refl, ap, true, false, none, some, List, [], ◌∷◌, ◌++◌, length, take,
  drop, arith, if◌then◌else◌, All,
}
use chammer.Text.{string_eq}
use chammer.Text.Laws.{string_eq-euclid}
use chammer.StringMap.{Entry, key_of, has_key, find_entry, overwrite, value_of}

pub take-drop_within :
    (at len : ℕ) (bs cs : List ℕ)
    → at + len ≤ length bs
    → take len (drop at (bs ++ cs)) ≡ take len (drop at bs)
take-drop_within zero zero bs cs le = refl
take-drop_within zero (suc len) [] cs le = absurd (omega (arith, le))
take-drop_within zero (suc len) (b ∷ bs) cs le =
    ap (λ r. b ∷ r) (take-drop_within zero len bs cs (omega (arith, le)))
take-drop_within (suc at) len [] cs le = absurd (omega (arith, le))
take-drop_within (suc at) len (b ∷ bs) cs le = take-drop_within at len bs cs (omega (arith, le))

pub take-drop_behind : (bs cs : List ℕ) → take (length cs) (drop (length bs) (bs ++ cs)) ≡ cs
take-drop_behind [] [] = refl
take-drop_behind [] (c ∷ cs) = ap (λ r. c ∷ r) (take-drop_behind [] cs)
take-drop_behind (b ∷ bs) cs = take-drop_behind bs cs

module _ {A : Type 0} where
  abbrev pub Inside : ℕ → Entry A → Type 0
  Inside n e = e.key_at + e.key_len ≤ n

  -- Keys that are appended change nothing about those that are there.
  pub find_entry-grow :
      (keys more : List ℕ) (hash : ℕ) (key : List ℕ) (chain : List (Entry A))
      → All (Inside (length keys)) chain
      → find_entry (keys ++ more) hash key chain ≡ find_entry keys hash key chain
  unfolding find_entry
  find_entry-grow keys more hash key [] inside = refl
  find_entry-grow keys more hash key (e ∷ chain) inside =
      rw
        (
          take-drop_within e.key_at e.key_len keys more (inside.0),
          find_entry-grow keys more hash key chain (inside.1),
        )
        refl

  pub find_entry-append :
      (keys : List ℕ) (hash : ℕ) (key : List ℕ) (chain : List (Entry A)) (e : Entry A)
      → find_entry keys hash key chain ≡ none
      → find_entry keys hash key (chain ++ e ∷ [])
        ≡ (if has_key keys hash key e then some e else none)
  unfolding find_entry
  find_entry-append keys hash key [] e none_there = refl
  find_entry-append keys hash key (d ∷ chain) e none_there =
      ground (arith, find_entry-append keys hash key chain e)

  pub find_entry-append_other :
      (keys : List ℕ) (hash : ℕ) (key : List ℕ) (chain : List (Entry A)) (e : Entry A)
      → has_key keys hash key e ≡ false
      → find_entry keys hash key (chain ++ e ∷ []) ≡ find_entry keys hash key chain
  unfolding find_entry
  find_entry-append_other keys hash key [] e other = rw other refl
  find_entry-append_other keys hash key (d ∷ chain) e other =
      rw (find_entry-append_other keys hash key chain e other) refl

  pub find_entry-overwrite :
      (keys : List ℕ) (hash : ℕ) (key : List ℕ) (v : A) (chain : List (Entry A)) (e : Entry A)
      → find_entry keys hash key chain ≡ some e
      → find_entry keys hash key (overwrite keys hash key v chain) ≡ some (record e { value = v })
  unfolding find_entry overwrite
  find_entry-overwrite keys hash key v [] e found = absurd (cc)
  find_entry-overwrite keys hash key v (d ∷ chain) e found =
      elim (has_key keys hash key d)
          as (λ b.
            has_key keys hash key d ≡ b
            → (if b then some d else find_entry keys hash key chain) ≡ some e
            → find_entry keys hash key
                (if b then record d { value = v } ∷ chain else d ∷ overwrite keys hash key v chain)
              ≡ some (record e { value = v })) [
                | true ↦ λ g f.
                    let same : d ≡ e = cc in
                    rw g (ap (λ (e : Entry A). some (record e { value = v })) same)
                | false ↦ λ g f. rw g (find_entry-overwrite keys hash key v chain e f)
              ]
        refl found

  -- An entry found for one key is found for no key that differs.
  differ :
      (keys : List ℕ) (hash hash' : ℕ) (key other : List ℕ) (e : Entry A)
      → string_eq other key ≡ false
      → has_key keys hash key e ≡ true
      → has_key keys hash' other e ≡ false
  differ keys hash hash' key other e n h =
      ground (arith, string_eq-euclid (key_of keys e) other key)

  pub find_entry-overwrite_other :
      (keys : List ℕ) (hash hash' : ℕ) (key other : List ℕ) (v : A) (chain : List (Entry A))
      → string_eq other key ≡ false
      → value_of (find_entry keys hash' other (overwrite keys hash key v chain))
        ≡ value_of (find_entry keys hash' other chain)
  unfolding find_entry overwrite
  find_entry-overwrite_other keys hash hash' key other v [] n = refl
  find_entry-overwrite_other keys hash hash' key other v (d ∷ chain) n =
      elim (has_key keys hash key d)
          as (λ b.
            has_key keys hash key d ≡ b
            → value_of (
                find_entry keys hash' other (
                  if b
                  then record d { value = v } ∷ chain
                  else d ∷ overwrite keys hash key v chain))
              ≡ value_of (find_entry keys hash' other (d ∷ chain))) [
                | true ↦ λ g. let out = differ keys hash hash' key other d n g in rw out refl
                | false ↦ λ g.
                    elim (has_key keys hash' other d)
                      as (λ b.
                        value_of (
                          if b
                          then some d
                          else find_entry keys hash' other (overwrite keys hash key v chain))
                        ≡ value_of (if b then some d else find_entry keys hash' other chain)) [
                          | true ↦ refl
                          | false ↦ find_entry-overwrite_other keys hash hash' key other v chain n
                        ]
              ]
        refl
