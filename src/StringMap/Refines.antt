-- ===== src/StringMap/Refines.antt =====
-- The map of lib/string_map.c as a function from strings to values.
use mathlib.Core.Path.{subst}
use chammer.Prelude.{
  ℕ, ◌<◌, ◌≡◌, ◌≢◌, refl, sym, ap, ◌∙◌, true, false, Option, none, some, List, [], ◌∷◌, ◌++◌,
  length, get_elem?, set, arith, length-set, All, get_elem?-set, get_elem?-set_other,
}
use native.Mathlib.Decide.{ℕ_discrete}
use chammer.Buffer.{Buffer, buffer_puts}
use chammer.Buffer.Laws.{puts-bytes}
use chammer.Text.{string_eq}
use chammer.Text.Laws.{string_eq_refl, string_eq-euclid}
use chammer.StringMap.{
  Entry, StringMap, string_hash, has_key, find_entry, overwrite, value_of, chain_in, bucket_of,
  chain_of, string_map_get_entry, string_map_get, append_entry, replace_entry, put_found,
  string_map_put, keys_stay, append_or_dangle,
}
use chammer.StringMap.Laws.{
  Inside, take-drop_behind, find_entry-grow, find_entry-append, find_entry-append_other,
  find_entry-overwrite, find_entry-overwrite_other,
}

-- There is a bucket, and the keys lie in the key buffer.
pub record IsValid {A : Type 0} (m : StringMap A) : Type 0 where
  pub some_bucket : 0 < length m.buckets
  pub inside : (i : ℕ) → All (Inside (length m.key_buffer.bytes)) (chain_in (get_elem? m.buckets i))

module _ {A : Type 0} (m : StringMap A) (valid : IsValid m) where
  pub bucket-in : (hash : ℕ) → bucket_of m hash < length m.buckets
  bucket-in hash = omega (arith, valid.some_bucket)

  -- The chains after a write to the bucket of a hash.
  chain-same :
      (keys : Buffer) (hash : ℕ) (chain : List (Entry A))
      → chain_of
          (record { buckets = set m.buckets (bucket_of m hash) chain; key_buffer = keys })
          hash
        ≡ chain
  chain-same keys hash chain =
      rw
        (
          length-set m.buckets (bucket_of m hash) chain,
          get_elem?-set m.buckets (bucket_of m hash) chain (bucket-in hash),
        )
        refl

  chain-written :
      (keys : Buffer) (hash hash' : ℕ) (chain : List (Entry A))
      → bucket_of m hash ≡ bucket_of m hash'
      → chain_of
          (record { buckets = set m.buckets (bucket_of m hash) chain; key_buffer = keys })
          hash'
        ≡ chain
  chain-written keys hash hash' chain same =
      rw
        (
          length-set m.buckets (bucket_of m hash) chain,
          sym same,
          get_elem?-set m.buckets (bucket_of m hash) chain (bucket-in hash),
        )
        refl

  chain-other :
      (keys : Buffer) (hash hash' : ℕ) (chain : List (Entry A))
      → bucket_of m hash ≢ bucket_of m hash'
      → chain_of
          (record { buckets = set m.buckets (bucket_of m hash) chain; key_buffer = keys })
          hash'
        ≡ chain_of m hash'
  chain-other keys hash hash' chain n =
      rw
        (
          length-set m.buckets (bucket_of m hash) chain,
          get_elem?-set_other m.buckets (bucket_of m hash) (bucket_of m hash') chain n,
        )
        refl

  abbrev pub new_entry : ℕ → List ℕ → A → Entry A
  new_entry hash key v = record {
    hash = hash;
    key_at = length m.key_buffer.bytes;
    key_len = length key;
    value = v;
  }

  get-append :
      (key : List ℕ) (v : A)
      → string_map_get_entry m key ≡ none
      → string_map_get (append_entry m (string_hash key) key v) key ≡ some v
  unfolding string_map_get string_map_get_entry buffer_puts
  get-append key v absent =
      let hash = string_hash key in
      let bytes = m.key_buffer.bytes in
      let chain = chain_of m hash in
      let e = new_entry hash key v in
      let grown : find_entry (bytes ++ key) hash key chain ≡ none =
        find_entry-grow bytes key hash key chain (valid.inside (bucket_of m hash)) ∙ absent in
      let found : has_key (bytes ++ key) hash key e ≡ true =
        rw (take-drop_behind bytes key, string_eq_refl key) (ground arith) in
      rw
        (
          puts-bytes m.key_buffer key,
          chain-same (buffer_puts m.key_buffer key).1 hash (chain ++ e ∷ []),
          find_entry-append (bytes ++ key) hash key chain e grown,
          found,
        )
        refl

  get-append_other :
      (key other : List ℕ) (v : A)
      → string_eq other key ≡ false
      → string_map_get (append_entry m (string_hash key) key v) other ≡ string_map_get m other
  unfolding string_map_get string_map_get_entry buffer_puts
  get-append_other key other v n =
      let hash = string_hash key in
      let hash' = string_hash other in
      let bytes = m.key_buffer.bytes in
      let chain = chain_of m hash in
      let e = new_entry hash key v in
      let keys = (buffer_puts m.key_buffer key).1 in
      let differs : string_eq key other ≡ false =
        ground (arith, string_eq-euclid key other key, string_eq_refl key) in
      let not_new : has_key (bytes ++ key) hash' other e ≡ false =
        rw (take-drop_behind bytes key, differs) (ground arith) in
      elim (ℕ_discrete (bucket_of m hash) (bucket_of m hash')) [
        | yes same ↦
            let there : chain_of (append_entry m hash key v) hash' ≡ chain_of m hash' ++ e ∷ [] =
              chain-written keys hash hash' (chain ++ e ∷ []) same
              ∙ ap (λ b. chain_in (get_elem? m.buckets b) ++ e ∷ []) same in
            rw
              (
                puts-bytes m.key_buffer key,
                there,
                find_entry-append_other (bytes ++ key) hash' other (chain_of m hash') e not_new,
                find_entry-grow bytes key hash' other (chain_of m hash')
                    (valid.inside (bucket_of m hash')),
              )
              refl
        | no away ↦
            rw
              (
                puts-bytes m.key_buffer key,
                chain-other keys hash hash' (chain ++ e ∷ []) away,
                find_entry-grow bytes key hash' other (chain_of m hash')
                    (valid.inside (bucket_of m hash')),
              )
              refl
      ]

  get-replace :
      (key : List ℕ) (v : A) (e : Entry A)
      → string_map_get_entry m key ≡ some e
      → string_map_get (replace_entry m (string_hash key) key v) key ≡ some v
  unfolding string_map_get string_map_get_entry replace_entry
  get-replace key v e found =
      let hash = string_hash key in
      let chain = chain_of m hash in
      rw
        (
          chain-same m.key_buffer hash (overwrite m.key_buffer.bytes hash key v chain),
          find_entry-overwrite m.key_buffer.bytes hash key v chain e found,
        )
        refl

  get-replace_other :
      (key other : List ℕ) (v : A)
      → string_eq other key ≡ false
      → string_map_get (replace_entry m (string_hash key) key v) other ≡ string_map_get m other
  unfolding string_map_get string_map_get_entry replace_entry
  get-replace_other key other v n =
      let hash = string_hash key in
      let hash' = string_hash other in
      let bytes = m.key_buffer.bytes in
      let chain = overwrite bytes hash key v (chain_of m hash) in
      elim (ℕ_discrete (bucket_of m hash) (bucket_of m hash')) [
        | yes same ↦
            let there : chain_of (replace_entry m hash key v) hash'
                ≡ overwrite bytes hash key v (chain_of m hash') =
              chain-written m.key_buffer hash hash' chain same
              ∙ ap (λ b. overwrite bytes hash key v (chain_in (get_elem? m.buckets b))) same in
            rw there (find_entry-overwrite_other bytes hash hash' key other v (chain_of m hash') n)
        | no away ↦ rw (chain-other m.key_buffer hash hash' chain away) refl
      ]

-- What a put makes of a map: it gives back what the map had at the key, and the map has the new value
-- there, and what it had at every key that `string_eq` tells from it.
abbrev pub Updated :
    {A : Type 0} → StringMap A → List ℕ → A → Option (Option A × StringMap A) → Type 0
unfolding string_map_get
Updated m key v none = ⊥
Updated m key v (some (old, m')) =
    (old ≡ string_map_get m key)
    × (string_map_get m' key ≡ some v)
    × ((other : List ℕ)
        → string_eq other key ≡ false
        → string_map_get m' other ≡ string_map_get m other)

-- In a map whose keys lie in its key buffer, and where that buffer need not grow for the key, or holds
-- none yet, `string_map_put` gives back what the map had at the key, and afterwards the map has the
-- new value there, and what it had at every key that `string_eq` tells from it.
pub string_map_put-update :
    {A : Type 0} (m : StringMap A) (key : List ℕ) (v : A)
    → IsValid m
    → keys_stay m key ≡ true
    → Updated m key v (string_map_put m key v)
unfolding string_map_put string_map_get put_found Updated append_or_dangle
string_map_put-update {A = A} m key v valid stay =
    elim (string_map_get_entry m key)
        as (λ (x : Option (Entry A)).
          string_map_get_entry m key ≡ x → Updated m key v (put_found m key v x)) [
            | some e ↦ λ g. (
              ap value_of (sym g),
              get-replace m valid key v e g,
              λ other n. get-replace_other m valid key other v n,
            )
            | none ↦ λ g.
                subst (λ u. Updated m key v (append_or_dangle u m key v)) (sym stay)
                  (
                    ap value_of (sym g),
                    get-append m valid key v g,
                    λ other n. get-append_other m valid key other v n,
                  )
          ]
      refl
