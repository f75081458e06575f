-- ===== src/StringMap/Valid.antt =====
-- A map of lib/string_map.c stays well formed.
use chammer.Prelude.{
  ℕ, ◌+◌, ◌≤◌, ◌<◌, ◌≡◌, ap, ◌∙◌, true, false, Option, none, some, List, [], ◌∷◌, ◌++◌, length,
  get_elem?, set, arith, length-append, length-set, if◌then◌else◌, All, All-append, get_elem?-set,
  get_elem?-set_other,
}
use mathlib.Core.Path.{subst}
use native.Mathlib.Decide.{ℕ_discrete}
use chammer.Buffer.{buffer_puts}
use chammer.Buffer.Laws.{puts-bytes}
use chammer.StringMap.{
  Entry, StringMap, string_hash, has_key, overwrite, chain_in, bucket_of, chain_of,
  string_map_get_entry, append_entry, replace_entry, put_found, string_map_put, keys_stay,
  append_or_dangle,
}
use chammer.StringMap.Laws.{Inside}
use chammer.StringMap.Refines.{IsValid, bucket-in, new_entry}

module _ {A : Type 0} where
  All-overwrite :
      (n : ℕ) (keys : List ℕ) (hash : ℕ) (key : List ℕ) (v : A) (chain : List (Entry A))
      → All (Inside n) chain
      → All (Inside n) (overwrite keys hash key v chain)
  unfolding overwrite
  All-overwrite n keys hash key v [] inside = inside
  All-overwrite n keys hash key v (e ∷ chain) inside =
      elim (has_key keys hash key e)
        as (λ b.
          All (Inside n)
            (if b then record e { value = v } ∷ chain else e ∷ overwrite keys hash key v chain)) [
              | true ↦ inside
              | false ↦ (inside.0, All-overwrite n keys hash key v chain inside.1)
            ]

  All-wider :
      (n k : ℕ) (chain : List (Entry A)) → n ≤ k → All (Inside n) chain → All (Inside k) chain
  All-wider n k [] le inside = inside
  All-wider n k (e ∷ chain) le inside = (
    (let here : e.key_at + e.key_len ≤ n = inside.0 in omega (arith, here, le)),
    All-wider n k chain le inside.1,
  )

  -- The chains of buckets of which one was written.
  chains-Inside :
      (n : ℕ) (buckets : List (List (Entry A))) (b : ℕ) (chain : List (Entry A))
      → b < length buckets
      → ((i : ℕ) → All (Inside n) (chain_in (get_elem? buckets i)))
      → All (Inside n) chain
      → (i : ℕ) → All (Inside n) (chain_in (get_elem? (set buckets b chain) i))
  chains-Inside n buckets b chain lt old new i = elim (ℕ_discrete b i) [
    | yes same ↦
        subst (λ i. All (Inside n) (chain_in (get_elem? (set buckets b chain) i))) same
          (rw (get_elem?-set buckets b chain lt) new)
    | no other ↦ rw (get_elem?-set_other buckets b i chain other) (old i)
  ]

  replace-IsValid :
      (m : StringMap A) (hash : ℕ) (key : List ℕ) (v : A)
      → IsValid m
      → IsValid (replace_entry m hash key v)
  unfolding replace_entry
  replace-IsValid m hash key v valid =
      let chain = overwrite m.key_buffer.bytes hash key v (chain_of m hash) in
      record {
        some_bucket =
            omega (arith, valid.some_bucket, length-set m.buckets (bucket_of m hash) chain);
        inside =
            chains-Inside (length m.key_buffer.bytes) m.buckets (bucket_of m hash) chain
              (bucket-in m valid hash) valid.inside
              (All-overwrite (length m.key_buffer.bytes) m.key_buffer.bytes hash key v
                (chain_of m hash) (valid.inside (bucket_of m hash)));
      }

  append-IsValid :
      (m : StringMap A) (hash : ℕ) (key : List ℕ) (v : A)
      → IsValid m
      → IsValid (append_entry m hash key v)
  unfolding buffer_puts
  append-IsValid m hash key v valid =
      let e = new_entry m valid hash key v in
      let chain = chain_of m hash in
      let size = length (buffer_puts m.key_buffer key).1.bytes in
      let more : size ≡ length m.key_buffer.bytes + length key =
        ap length (puts-bytes m.key_buffer key) ∙ length-append m.key_buffer.bytes key in
      let wider : (i : ℕ) → All (Inside size) (chain_in (get_elem? m.buckets i)) = λ i.
        All-wider (length m.key_buffer.bytes) size (chain_in (get_elem? m.buckets i))
          (omega (arith, more)) (valid.inside i) in
      record {
        some_bucket =
            omega
              (arith, valid.some_bucket, length-set m.buckets (bucket_of m hash) (chain ++ e ∷ []));
        inside =
            chains-Inside size m.buckets (bucket_of m hash) (chain ++ e ∷ [])
              (bucket-in m valid hash) wider
              (All-append (Inside size) chain (e ∷ []) (wider (bucket_of m hash))
                (omega (arith, more), tt));
      }

  abbrev pub IsValidAfter : Option (Option A × StringMap A) → Type 0
  IsValidAfter none = Unit
  IsValidAfter (some (old, m)) = IsValid m

  -- A map stays well formed.
  pub string_map_put-IsValid :
      (m : StringMap A) (key : List ℕ) (v : A) → IsValid m → IsValidAfter (string_map_put m key v)
  unfolding string_map_put put_found append_or_dangle
  string_map_put-IsValid m key v valid =
      elim (string_map_get_entry m key)
        as (λ (x : Option (Entry A)). IsValidAfter (put_found m key v x)) [
          | some e ↦ replace-IsValid m (string_hash key) key v valid
          | none ↦ elim (keys_stay m key) as (λ u. IsValidAfter (append_or_dangle u m key v)) [
            | true ↦ append-IsValid m (string_hash key) key v valid
            | false ↦ tt
          ]
        ]
