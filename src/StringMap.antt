-- ===== src/StringMap.antt =====
-- lib/string_map.c and lib/string_pool.c: a hash map with strings as keys, and the pool that gives
-- equal strings one entry. A key is where it stands in the key buffer.
pub mod Laws
pub mod Refines
pub mod Valid
pub mod Pool
pub mod Iteration
use chammer.Prelude.{
  ℕ, zero, suc, ◌+◌, ◌-◌, ◌*◌, ◌%◌, ◌^◌, bit_xor, Bool, true, false, Option, none, some, List, [],
  ◌∷◌, ◌++◌, ◌==◌, ltb, leb, ◌&&◌, ◌||◌, length, get_elem?, set, take, drop, if◌then◌else◌,
}
use chammer.Buffer.{Buffer, buffer_init, buffer_puts}
use chammer.Text.{string_eq}

abbrev pub default_num_heads : ℕ
default_num_heads = 0x400

abbrev pub fnv_offset_basis : ℕ
fnv_offset_basis = 0xCBF29CE484222325

abbrev pub fnv_prime : ℕ
fnv_prime = 0x100000001B3

-- A `char` from 128 on is negative, and widened with its sign.
abbrev pub widened : ℕ → ℕ
widened c = if ltb c 128 then c else 2 ^ 64 - 256 + c

pub hash_from : ℕ → List ℕ → ℕ
hash_from hash [] = hash
hash_from hash (c ∷ str) = hash_from (bit_xor (hash * fnv_prime % 2 ^ 64) (widened c)) str

unfoldable pub string_hash : List ℕ → ℕ
unfolding hash_from
string_hash str = hash_from fnv_offset_basis str

pub record Entry (A : Type 0) : Type 0 where
  pub hash : ℕ
  pub key_at : ℕ
  pub key_len : ℕ
  pub value : A

-- The entries of a bucket follow one another as they are linked.
pub record StringMap (A : Type 0) : Type 0 where
  pub buckets : List (List (Entry A))
  pub key_buffer : Buffer

pub empty_buckets : {A : Type 0} → ℕ → List (List (Entry A))
empty_buckets zero = []
empty_buckets (suc n) = [] ∷ empty_buckets n

unfoldable pub string_map_init_buckets : {A : Type 0} → (ℕ → ℕ) → ℕ → StringMap A
unfolding buffer_init empty_buckets
string_map_init_buckets memory n = record {
  buckets = empty_buckets n;
  key_buffer = buffer_init memory;
}

unfoldable pub string_map_init : {A : Type 0} → (ℕ → ℕ) → StringMap A
unfolding string_map_init_buckets
string_map_init memory = string_map_init_buckets memory default_num_heads

module _ {A : Type 0} where
  abbrev pub key_of : List ℕ → Entry A → List ℕ
  key_of keys e = take e.key_len (drop e.key_at keys)

  abbrev pub has_key : List ℕ → ℕ → List ℕ → Entry A → Bool
  has_key keys hash key e = e.hash == hash && string_eq (key_of keys e) key

  -- The loop of `string_map_get_entry_`; `none` is the end of the chain.
  unfoldable pub find_entry : List ℕ → ℕ → List ℕ → List (Entry A) → Option (Entry A)
  find_entry keys hash key [] = none
  find_entry keys hash key (e ∷ chain) =
      if has_key keys hash key e then some e else find_entry keys hash key chain

  -- The write to the entry that the loop found.
  unfoldable pub overwrite : List ℕ → ℕ → List ℕ → A → List (Entry A) → List (Entry A)
  overwrite keys hash key v [] = []
  overwrite keys hash key v (e ∷ chain) =
      if has_key keys hash key e
      then record e { value = v } ∷ chain
      else e ∷ overwrite keys hash key v chain

  abbrev pub chain_in : Option (List (Entry A)) → List (Entry A)
  chain_in none = []
  chain_in (some chain) = chain

  abbrev pub bucket_of : StringMap A → ℕ → ℕ
  bucket_of m hash = hash % length m.buckets

  abbrev pub chain_of : StringMap A → ℕ → List (Entry A)
  chain_of m hash = chain_in (get_elem? m.buckets (bucket_of m hash))

  -- There is at least one bucket.
  unfoldable pub string_map_get_entry : StringMap A → List ℕ → Option (Entry A)
  unfolding find_entry string_hash
  string_map_get_entry m key =
      let hash = string_hash key in find_entry m.key_buffer.bytes hash key (chain_of m hash)

  abbrev pub value_of : Option (Entry A) → Option A
  value_of none = none
  value_of (some e) = some e.value

  unfoldable pub string_map_get : StringMap A → List ℕ → Option A
  unfolding string_map_get_entry
  string_map_get m key = value_of (string_map_get_entry m key)

  -- A key that is new is copied behind the others, and its entry linked behind the last.
  abbrev pub append_entry : StringMap A → ℕ → List ℕ → A → StringMap A
  append_entry m hash key v =
      let (at, keys) = buffer_puts m.key_buffer key in
      let e : Entry A = record { hash = hash; key_at = at; key_len = length key; value = v } in
      record {
        buckets = set m.buckets (bucket_of m hash) (chain_of m hash ++ e ∷ []);
        key_buffer = keys;
      }

  abbrev pub replace_entry : StringMap A → ℕ → List ℕ → A → StringMap A
  unfolding overwrite
  replace_entry m hash key v = record m {
    buckets =
        set m.buckets (bucket_of m hash)
          (overwrite m.key_buffer.bytes hash key v (chain_of m hash));
  }

  abbrev pub no_entries : List (List (Entry A)) → Bool
  no_entries [] = true
  no_entries ([] ∷ buckets) = no_entries buckets
  no_entries ((e ∷ chain) ∷ buckets) = false

  -- The keys of the source are pointers into the key buffer. They stay good while it need not grow
  -- for a new key, or when there are none.
  abbrev pub keys_stay : StringMap A → List ℕ → Bool
  keys_stay m key =
      leb (length m.key_buffer.bytes + length key + 1) m.key_buffer.capacity || no_entries m.buckets

  abbrev pub append_or_dangle : Bool → StringMap A → List ℕ → A → Option (Option A × StringMap A)
  unfolding string_hash buffer_puts
  append_or_dangle true m key v = some (none, append_entry m (string_hash key) key v)
  append_or_dangle false m key v = none

  -- The two branches of `string_map_put`, on the entry that was found.
  unfoldable pub put_found :
      StringMap A → List ℕ → A → Option (Entry A) → Option (Option A × StringMap A)
  unfolding replace_entry string_hash append_or_dangle
  put_found m key v (some e) = some (some e.value, replace_entry m (string_hash key) key v)
  put_found m key v none = append_or_dangle (keys_stay m key) m key v

  -- The value that was there before, if there was one. The model ends with `none` where the key
  -- buffer is moved, since the keys of the earlier entries dangle from then on.
  unfoldable pub string_map_put : StringMap A → List ℕ → A → Option (Option A × StringMap A)
  unfolding string_map_get_entry put_found
  string_map_put m key v = put_found m key v (string_map_get_entry m key)

-- The entry that an iterator stands at is the first of `rest`, which the others of its chain
-- follow; `bucket` is the next bucket to look at.
pub record StringMapIter (A : Type 0) : Type 0 where
  pub bucket : ℕ
  pub rest : List (Entry A)

module _ {A : Type 0} where
  abbrev pub string_map_iter_begin : StringMapIter A
  string_map_iter_begin = record { bucket = 0; rest = [] }

  -- The first chain that is not empty, and the number of the bucket behind it.
  unfoldable pub next_chain : List (List (Entry A)) → ℕ → ℕ × List (Entry A)
  next_chain [] b = (b, [])
  next_chain ([] ∷ buckets) b = next_chain buckets (suc b)
  next_chain ((e ∷ chain) ∷ buckets) b = (suc b, e ∷ chain)

  abbrev pub at_chain : ℕ × List (Entry A) → Option (Entry A) × StringMapIter A
  at_chain (b, []) = (none, record { bucket = b; rest = [] })
  at_chain (b, e ∷ chain) = (some e, record { bucket = b; rest = e ∷ chain })

  -- The entry that the iterator moves to; `none` is the result `false`.
  unfoldable pub iter_next : StringMap A → ℕ → List (Entry A) → Option (Entry A) × StringMapIter A
  unfolding next_chain
  iter_next m bucket (e ∷ d ∷ chain) = (some d, record { bucket = bucket; rest = d ∷ chain })
  iter_next m bucket (e ∷ []) = at_chain (next_chain (drop bucket m.buckets) bucket)
  iter_next m bucket [] = at_chain (next_chain (drop bucket m.buckets) bucket)

  unfoldable pub string_map_iter_next :
      StringMap A → StringMapIter A → Option (Entry A) × StringMapIter A
  unfolding iter_next
  string_map_iter_next m i = iter_next m i.bucket i.rest

-- A pool is a map without values. A symbol is the entry of its string.
abbrev pub StringPool : Type 0
StringPool = StringMap Unit

unfoldable pub string_pool_init : (ℕ → ℕ) → StringPool
unfolding string_map_init
string_pool_init memory = string_map_init memory

-- `none` is a null pointer, or the end of the model where the keys of earlier symbols dangle.
unfoldable pub string_pool_intern : StringPool → List ℕ → Option (Entry Unit) × StringPool
unfolding string_map_put string_map_get_entry
string_pool_intern sp str = elim (string_map_put sp str tt) [
  | none ↦ (none, sp)
  | some (old, sp') ↦ (string_map_get_entry sp' str, sp')
]

abbrev pub string_pool_get_entry : Entry Unit → ℕ × ℕ
string_pool_get_entry sym = (sym.key_at, sym.key_len)

abbrev pub string_pool_size : StringPool → ℕ
string_pool_size sp = length sp.key_buffer.bytes

abbrev pub string_pool_contents : StringPool → List ℕ
string_pool_contents sp = sp.key_buffer.bytes

-- The string is read from the key buffer.
abbrev pub symbol_string : StringPool → Entry Unit → List ℕ
symbol_string sp sym = key_of sp.key_buffer.bytes sym
