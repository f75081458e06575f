-- ===== src/StringMap/Pool.antt =====
-- The pool of lib/string_pool.c gives a string one symbol.
use chammer.Prelude.{
  ℕ, zero, suc, ◌≡◌, refl, sym, ap, ◌∙◌, true, false, Option, none, some, List, [], ◌∷◌, get_elem?,
  set, arith, if◌then◌else◌, get_elem?-in,
}
use mathlib.Core.Path.{subst}
use chammer.Text.{string_eq}
use chammer.StringMap.{
  Entry, StringPool, string_hash, key_of, has_key, find_entry, overwrite, value_of, chain_in,
  bucket_of, chain_of, string_map_get_entry, string_map_get, replace_entry, put_found, keys_stay,
  string_map_put, string_pool_intern, symbol_string,
}
use chammer.StringMap.Refines.{IsValid, Updated, string_map_put-update}
use chammer.StringMap.Valid.{string_map_put-IsValid, IsValidAfter}

set-same : {A : Type 0} (xs : List A) (i : ℕ) (x : A) → get_elem? xs i ≡ some x → set xs i x ≡ xs
set-same [] i x e = refl
set-same (y ∷ xs) zero x e = let same : y ≡ x = cc in rw same refl
set-same (y ∷ xs) (suc i) x e = ap (λ r. y ∷ r) (set-same xs i x e)

overwrite-unit :
    (keys : List ℕ) (hash : ℕ) (key : List ℕ) (chain : List (Entry Unit))
    → overwrite keys hash key tt chain ≡ chain
unfolding overwrite
overwrite-unit keys hash key [] = refl
overwrite-unit keys hash key (e ∷ chain) =
    elim (has_key keys hash key e)
      as (λ b.
        (if b then record e { value = tt } ∷ chain else e ∷ overwrite keys hash key tt chain)
        ≡ e ∷ chain) [ true ↦ refl | false ↦ ap (λ r. e ∷ r) (overwrite-unit keys hash key chain) ]

find_entry-eq :
    (keys : List ℕ) (hash : ℕ) (key : List ℕ) (chain : List (Entry Unit)) (e : Entry Unit)
    → find_entry keys hash key chain ≡ some e
    → string_eq (key_of keys e) key ≡ true
unfolding find_entry
find_entry-eq keys hash key [] e found = absurd (cc)
find_entry-eq keys hash key (d ∷ chain) e found =
    elim (has_key keys hash key d)
        as (λ b.
          has_key keys hash key d ≡ b
          → (if b then some d else find_entry keys hash key chain) ≡ some e
          → string_eq (key_of keys e) key ≡ true) [
            | true ↦ λ g f.
                let same : d ≡ e = cc in
                let eq : string_eq (key_of keys d) key ≡ true = ground arith in
                subst (λ (d : Entry Unit). string_eq (key_of keys d) key ≡ true) same eq
            | false ↦ λ g f. find_entry-eq keys hash key chain e f
          ]
      refl found

found_of : (x : Option (Entry Unit)) → value_of x ≡ some tt → (e : Entry Unit) × (x ≡ some e)
found_of none e = absurd (cc)
found_of (some d) e = (d, refl)

replace-same :
    (sp : StringPool) (str : List ℕ) → IsValid sp → replace_entry sp (string_hash str) str tt ≡ sp
unfolding replace_entry
replace-same sp str valid =
    let hash = string_hash str in
    let b = bucket_of sp hash in
    let (chain, there) = get_elem?-in sp.buckets b (omega (arith, valid.some_bucket)) in
    let kept = overwrite-unit sp.key_buffer.bytes hash str (chain_of sp hash) in
    let whole : chain_of sp hash ≡ chain = ap chain_in there in
    ap (λ (buckets : List (List (Entry Unit))). record sp { buckets = buckets })
      (ap (set sp.buckets b) (kept ∙ whole) ∙ set-same sp.buckets b chain there)

put_again :
    (sp : StringPool) (str : List ℕ) (e : Entry Unit)
    → IsValid sp
    → string_map_get_entry sp str ≡ some e
    → string_map_put sp str tt ≡ some (some tt, sp)
unfolding string_map_put put_found
put_again sp str e valid found =
    subst (λ (x : Option (Entry Unit)). put_found sp str tt x ≡ some (some tt, sp)) (sym found)
      (ap (λ (p : StringPool). some (some tt, p)) (replace-same sp str valid))

-- What a call of `string_pool_intern` that followed a put gives.
abbrev interned :
    StringPool → List ℕ → Option (Option (Unit {0}) × StringPool) → Option (Entry Unit) × StringPool
unfolding string_map_get_entry
interned sp str x = elim x [
  | none ↦ (none, sp)
  | some (old, sp') ↦ (string_map_get_entry sp' str, sp')
]

-- In a pool whose keys lie in its key buffer, and where that buffer need not grow for the string, or
-- holds none yet, interning the string gives a symbol whose string equals it, and interning it again
-- gives the same symbol and leaves the pool as it is.
pub string_pool_intern-again :
    (sp : StringPool) (str : List ℕ)
    → IsValid sp
    → keys_stay sp str ≡ true
    → (sym : Entry Unit) × (sp' : StringPool) × (string_pool_intern sp str ≡ (some sym, sp'))
      × (string_pool_intern sp' str ≡ (some sym, sp'))
      × (string_eq (symbol_string sp' sym) str ≡ true)
unfolding string_pool_intern string_map_get string_map_get_entry
string_pool_intern-again sp str valid stay =
    after (string_map_put sp str tt) refl (string_map_put-update sp str tt valid stay)
      (string_map_put-IsValid sp str tt valid)
  where
    after :
        (x : Option (Option Unit × StringPool))
        → string_map_put sp str tt ≡ x
        → Updated sp str tt x
        → IsValidAfter x
        → (sym : Entry Unit) × (sp' : StringPool) × (string_pool_intern sp str ≡ (some sym, sp'))
          × (string_pool_intern sp' str ≡ (some sym, sp'))
          × (string_eq (symbol_string sp' sym) str ≡ true)
    after none put updated valid' = elim updated [ ]
    after (some (old, sp')) put (had, now, others) valid' =
        let (e, found) = found_of (string_map_get_entry sp' str) now in
        (
          e,
          sp',
          ap (interned sp str) put ∙ ap (λ x. (x, sp')) found,
          ap (interned sp' str) (put_again sp' str e valid' found) ∙ ap (λ x. (x, sp')) found,
          find_entry-eq sp'.key_buffer.bytes (string_hash str) str (chain_of sp' (string_hash str))
              e found,
        )
