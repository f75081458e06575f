-- ===== src/Tests/Maps.antt =====
-- lib/string_map.c and lib/string_pool.c on concrete inputs.
use chammer.Prelude.{
  ℕ, zero, suc, ◌≡◌, refl, true, Option, none, some, List, [], ◌∷◌, length, get_elem?, arith, All,
}
use chammer.Text.{string_eq}
use chammer.StringMap.{
  Entry, StringMap, StringPool, chain_in, string_map_put, string_pool_intern, symbol_string,
  string_map_iter_begin,
}
use chammer.StringMap.Laws.{Inside}
use chammer.StringMap.Refines.{IsValid, Updated, string_map_put-update}
use chammer.StringMap.Valid.{string_map_put-IsValid, IsValidAfter}
use chammer.StringMap.Iteration.{collect, collect-all, entries_of}
use chammer.StringMap.Pool.{string_pool_intern-again}

-- One bucket, so that all keys collide.
abbrev crowded : (A : Type 0) → StringMap A
crowded A = record {
  buckets = [] ∷ [];
  key_buffer = record { bytes = []; spare = λ _. 0; capacity = 16 };
}

abbrev seven : ℕ
seven = 7

abbrev ab : List ℕ
ab = b'a' ∷ b'b' ∷ []

crowded-IsValid : (A : Type 0) → IsValid (crowded A)
crowded-IsValid A = record { some_bucket = omega arith; inside = inside A }
  where
    inside : (A : Type 0) (i : ℕ) → All (Inside {A = A} 0) (chain_in (get_elem? ([] ∷ []) i))
    inside A zero = tt
    inside A (suc i) = tt

string_map_put-update_example : Updated (crowded ℕ) ab seven (string_map_put (crowded ℕ) ab seven)
string_map_put-update_example = string_map_put-update (crowded ℕ) ab seven (crowded-IsValid ℕ) refl

abbrev map_of : {A : Type 0} → StringMap A → Option (Option A × StringMap A) → StringMap A
map_of m none = m
map_of m (some (old, m')) = m'

abbrev with_ab : StringMap ℕ
unfolding string_map_put string_eq
with_ab = map_of (crowded ℕ) (string_map_put (crowded ℕ) ab seven)

abbrev had : {A : Type 0} → Option (Option A × StringMap A) → Option A
had none = none
had (some (old, m')) = old

-- The same key again gives the old value.
put-twice : had (string_map_put with_ab ab 8) ≡ some seven
unfolding string_map_put string_eq with_ab
put-twice = refl

-- The key buffer of sixteen bytes has no room for another fifteen.
put-dangles :
    string_map_put with_ab
      (b'1' ∷ b'2' ∷ b'3' ∷ b'4' ∷ b'5' ∷ b'6' ∷ b'7' ∷ b'8' ∷ b'9' ∷ b'a' ∷ b'b' ∷ b'c' ∷ b'd'
        ∷ b'e' ∷ b'f' ∷ [])
      8
    ≡ none
unfolding string_map_put string_eq with_ab chammer.Buffer.grow_loop
put-dangles = refl

string_map_put-IsValid_example : IsValidAfter (string_map_put (crowded ℕ) ab seven)
string_map_put-IsValid_example = string_map_put-IsValid (crowded ℕ) ab seven (crowded-IsValid ℕ)

string_pool_intern-again_example :
    (sym : Entry Unit) × (sp' : StringPool) × (string_pool_intern (crowded Unit) ab
      ≡ (some sym, sp'))
    × (string_pool_intern sp' ab ≡ (some sym, sp'))
    × (string_eq (symbol_string sp' sym) ab ≡ true)
string_pool_intern-again_example =
    string_pool_intern-again (crowded Unit) ab (crowded-IsValid Unit) refl

collect-all_example :
    collect (suc (length (entries_of with_ab.buckets))) with_ab string_map_iter_begin
    ≡ some (entries_of with_ab.buckets)
collect-all_example = collect-all with_ab
