-- ===== src/Machine/Balance/Externs.antt =====
-- The external symbols of lib/machine.c and lib/module.c keep the counts exact.
use chammer.Prelude.{
  ℕ, suc, ◌+◌, ◌≡◌, refl, sym, ap, true, false, Option, none, some, List, [], ◌∷◌, ◌++◌, length,
  arith, length-append, append_assoc, if◌then◌else◌,
}
use mathlib.Core.Path.{subst}
use chammer.Text.{string_eq}
use chammer.Value.{
  Value, NativeMeta, Cell, Heap, Result, ok, err, confused, panicked, address_of, alloc,
  drops_payload, h_native, h_string, v_native, v_string, v_substr, v_error,
}
use chammer.Value.Objects.{string_in, hstring_get, hvalue_string_get, hvalue_make_native}
use chammer.Value.Counts.{points_to, occurrences, occurrences-append, held}
use chammer.Value.Sharing.{load-Safe, root-IsReferred}
use chammer.Value.Safe.{Safe, safe, bind-Safe}
use chammer.Value.Handling.{
  Balanced, Balanced-same, Balanced-le, ref-Balanced, alloc-Balanced, Within, root_occurs,
}
use chammer.Machine.{
  Machine, Module, ModuleMember, push_ref, member_value, module_get, load_extern_from, load_extern,
}
use chammer.Machine.Step.{op_loadext}
use chammer.Machine.Balance.{
  some_values, frame_roots, member_roots, module_roots, below, roots, Holding, Steady, pop-Steady,
  drop_in-Steady,
}

string_in-Safe : (c : Cell) → Safe (λ _. Unit) (string_in c)
string_in-Safe c =
    elim c.object
      as (λ o.
        Safe (λ _. Unit)
          (elim o as (λ _. Result (List ℕ)) [ h_string s ↦ ok s | _ ↦ err confused ])) [
            | h_string s ↦ safe tt
            | _ ↦ safe tt
          ]

hstring_get-Safe :
    (k : ℕ) (h : Heap) (rest : List Value) (v : Value) (p : ℕ)
    → Balanced k h (v ∷ rest)
    → address_of v ≡ some p
    → Safe (λ _. Unit) (hstring_get p h)
unfolding hstring_get
hstring_get-Safe k h rest v p b a =
    load-Safe h (v ∷ rest) p string_in b.counted (omega (arith, root_occurs p v rest a))
      (λ c e n. string_in-Safe c)

-- The text of a root.
pub string_get-Safe :
    (k : ℕ) (h : Heap) (rest : List Value) (v : Value)
    → Balanced k h (v ∷ rest)
    → Safe (λ _. Unit) (hvalue_string_get v h)
unfolding hvalue_string_get
string_get-Safe k h rest (v_string p) b = hstring_get-Safe k h rest (v_string p) p b refl
string_get-Safe k h rest (v_substr p offset len) b =
    bind-Safe (hstring_get-Safe k h rest (v_substr p offset len) p b refl) (λ s _. safe tt)
string_get-Safe k h rest (v_error p) b = hstring_get-Safe k h rest (v_error p) p b refl
string_get-Safe k h rest _ b = safe tt

-- How a module comes to give a value: it had it, or makes it and keeps it.
data Given (h h' : Heap) (v : Value) (before after : List Value) : Type 0 where
  remembered : h ≡ h' → before ≡ after → Within v after → Given h h' v before after
  made_now :
      (f : NativeMeta)
      → hvalue_make_native f [] h ≡ (v, h')
      → ((q : ℕ) → occurrences q after ≡ points_to q (address_of v) + occurrences q before)
      → length after ≡ suc (length before)
      → Given h h' v before after

behind :
    (h h' : Heap) (v : Value) (before after rest : List Value)
    → Given h h' v before after
    → Given h h' v (before ++ rest) (after ++ rest)
behind h h' v before after rest (remembered same kept within) =
    remembered same (ap (λ vs. vs ++ rest) kept)
      (λ q. omega (arith, within q, occurrences-append q after rest))
behind h h' v before after rest (made_now f made_by more longer) =
    made_now f made_by
      (λ q.
        omega (arith, more q, occurrences-append q after rest, occurrences-append q before rest))
      (omega (arith, longer, length-append after rest, length-append before rest))

in_front :
    (h h' : Heap) (v : Value) (front before after : List Value)
    → Given h h' v before after
    → Given h h' v (front ++ before) (front ++ after)
in_front h h' v front before after (remembered same kept within) =
    remembered same (ap (λ vs. front ++ vs) kept)
      (λ q. omega (arith, within q, occurrences-append q front after))
in_front h h' v front before after (made_now f made_by more longer) =
    made_now f made_by
      (λ q.
        omega (arith, more q, occurrences-append q front after, occurrences-append q front before))
      (omega (arith, longer, length-append front after, length-append front before))

abbrev GivenBy : ModuleMember → Heap → Value × ModuleMember × Heap → Type 0
unfolding some_values
GivenBy e h (v, e', h') = Given h h' v (some_values (e.value ∷ [])) (some_values (e'.value ∷ []))

member_value-Given : (e : ModuleMember) (h : Heap) → GivenBy e h (member_value e h)
unfolding member_value hvalue_make_native some_values occurrences alloc
member_value-Given e h =
    elim e.value
      as (λ (x : Option Value).
        GivenBy (record e { value = x }) h (member_value (record e { value = x }) h)) [
          | some v ↦ remembered refl refl (λ q. omega arith)
          | none ↦ made_now e.factory refl (λ q. omega arith) refl
        ]

abbrev GivenModule : Module → Heap → Option (Value × Module × Heap) → Type 0
unfolding member_roots
GivenModule es h none = Unit
GivenModule es h (some (v, es', h')) = Given h h' v (member_roots es) (member_roots es')

module_get-Given :
    (es : Module) (name : List ℕ) (h : Heap) → GivenModule es h (module_get es name h)
unfolding module_get member_roots GivenBy
module_get-Given [] name h = tt
module_get-Given (e ∷ es) name h =
    elim (string_eq e.name name)
      as (λ u. GivenModule (e ∷ es) h (elim u [
        | true ↦ let (v, e', h') = member_value e h in some (v, e' ∷ es, h')
        | false ↦ elim (module_get es name h) [
          | none ↦ none
          | some (v, es', h') ↦ some (v, e ∷ es', h')
        ]
      ])) [
        | true ↦
            let (v, e', h') = member_value e h in
            behind h h' v (some_values (e.value ∷ [])) (some_values (e'.value ∷ []))
              (member_roots es) (member_value-Given e h)
        | false ↦
            elim (module_get es name h)
                as (λ x.
                  GivenModule es h x
                  → GivenModule (e ∷ es) h
                      (elim x [ none ↦ none | some (v, es', h') ↦ some (v, e ∷ es', h') ])) [
                        | none ↦ λ g. tt
                        | some (v, es', h') ↦ λ g.
                            in_front h h' v (some_values (e.value ∷ [])) (member_roots es)
                              (member_roots es') g
                      ]
              (module_get-Given es name h)
      ]

abbrev GivenModules : List Module → Heap → Option (Value × List Module × Heap) → Type 0
unfolding module_roots
GivenModules ms h none = Unit
GivenModules ms h (some (v, ms', h')) = Given h h' v (module_roots ms) (module_roots ms')

load_extern_from-Given :
    (ms : List Module) (name : List ℕ) (h : Heap) → GivenModules ms h (load_extern_from ms name h)
unfolding load_extern_from module_roots GivenModule
load_extern_from-Given [] name h = tt
load_extern_from-Given (es ∷ ms) name h =
    elim (module_get es name h)
        as (λ x.
          GivenModule es h x
          → GivenModules (es ∷ ms) h (elim x [
            | some (v, es', h') ↦ some (v, es' ∷ ms, h')
            | none ↦ elim (load_extern_from ms name h) [
              | none ↦ none
              | some (v, ms', h') ↦ some (v, es ∷ ms', h')
            ]
          ])) [
            | some (v, es', h') ↦
                λ g. behind h h' v (member_roots es) (member_roots es') (module_roots ms) g
            | none ↦ λ _.
                elim (load_extern_from ms name h)
                    as (λ x.
                      GivenModules ms h x
                      → GivenModules (es ∷ ms) h
                          (elim x [ none ↦ none | some (v, ms', h') ↦ some (v, es ∷ ms', h') ])) [
                            | none ↦ λ g. tt
                            | some (v, ms', h') ↦ λ g.
                                in_front h h' v (member_roots es) (module_roots ms)
                                  (module_roots ms') g
                          ]
                  (load_extern_from-Given ms name h)
          ]
      (module_get-Given es name h)

held-fresh : (f : NativeMeta) → held (h_native f [] []) ≡ []
held-fresh f = elim (drops_payload f) as (λ u. ◌≡◌ {A = List Value} (if u then [] else []) []) [
  | true ↦ refl
  | false ↦ refl
]

-- With what a module gives, the counts are exact for what it holds then.
given-Balanced :
    (k : ℕ) (h h' : Heap) (v : Value) (vs before after leaks : List Value)
    → Given h h' v before after
    → Balanced (suc k) h (vs ++ (before ++ leaks))
    → Balanced k h' (vs ++ (after ++ leaks)) × Within v after
unfolding hvalue_make_native occurrences
given-Balanced k h h' v vs before after leaks (remembered same kept within) b = (
  subst (λ h. Balanced k h (vs ++ (after ++ leaks))) same
      (subst (λ (roots : List Value). Balanced k h (vs ++ (roots ++ leaks))) kept
        (Balanced-le (suc k) k h (vs ++ (before ++ leaks)) (omega arith) b)),
  within,
)
given-Balanced k h h' v vs before after leaks (made_now f made_by more longer) b =
    let all = vs ++ (before ++ leaks) in
    let fresh : Balanced k (hvalue_make_native f [] h).1 ((hvalue_make_native f [] h).0 ∷ all) =
      alloc-Balanced k h all (h_native f [] []) (v_native (length h)) refl
        (subst (λ (vs : List Value). Balanced (suc k) h (vs ++ all)) (sym (held-fresh f)) b) in
    (
      Balanced-same k h' (v ∷ all) (vs ++ (after ++ leaks))
          (λ q. omega (
            arith,
            more q,
            occurrences-append q vs (before ++ leaks),
            occurrences-append q vs (after ++ leaks),
            occurrences-append q before leaks,
            occurrences-append q after leaks,
          ))
          (omega (
            arith,
            longer,
            length-append vs (before ++ leaks),
            length-append vs (after ++ leaks),
            length-append before leaks,
            length-append after leaks,
          ))
          (subst (λ (r : Value × Heap). Balanced k r.1 (r.0 ∷ all)) made_by fresh),
      λ q. omega (arith, more q),
    )

pushed-Steady :
    (k : ℕ) (leaks : List Value) (m : Machine) (u v : Value)
    → Holding (u ∷ []) (suc k) leaks m
    → Within v (module_roots m.modules)
    → Safe (Holding (u ∷ []) k leaks) (push_ref v m)
unfolding push_ref occurrences
pushed-Steady k leaks m u v b within =
    let all = u ∷ roots m leaks in
    let inside : Within v all = λ q. omega (
      arith,
      within q,
      occurrences-append q m.opstack (below m leaks),
      occurrences-append q (frame_roots m.fnstack) (module_roots m.modules ++ leaks),
      occurrences-append q (module_roots m.modules) leaks,
    ) in
    bind-Safe (ref-Balanced k m.heap all v b (root-IsReferred m.heap all v inside))
      (λ (w, h) (same, b', keeps). safe (
        Balanced-same k h (w ∷ all) (u ∷ w ∷ roots m leaks) (λ q. omega arith) refl
          (subst (λ w. Balanced k h (w ∷ all)) (sym same) b')))

load_extern-Steady :
    (k : ℕ) (leaks : List Value) (m : Machine) (u : Value) (name : List ℕ)
    → Holding (u ∷ []) (suc (suc k)) leaks m
    → Safe (Holding (u ∷ []) k leaks) (load_extern name m)
unfolding load_extern GivenModules
load_extern-Steady k leaks m u name b =
    elim (load_extern_from m.modules name m.heap)
        as (λ x.
          GivenModules m.modules m.heap x
          → Safe (Holding (u ∷ []) k leaks) (elim x [
            | none ↦ err panicked
            | some (v, ms, h) ↦ push_ref v (record m { modules = ms; heap = h })
          ])) [
            | none ↦ λ g. safe tt
            | some (v, ms, h) ↦ λ g.
                let vs = u ∷ m.opstack ++ frame_roots m.fnstack in
                let before = module_roots m.modules in
                let after = module_roots ms in
                let (b', within) = given-Balanced (suc k) m.heap h v vs before after leaks g (
                  subst (λ (roots : List Value). Balanced (suc (suc k)) m.heap (u ∷ roots))
                    (sym (append_assoc m.opstack (frame_roots m.fnstack) (before ++ leaks))) b) in
                pushed-Steady k leaks (record m { modules = ms; heap = h }) u v
                  (subst (λ (roots : List Value). Balanced (suc k) h (u ∷ roots))
                    (append_assoc m.opstack (frame_roots m.fnstack) (after ++ leaks)) b')
                  within
          ]
      (load_extern_from-Given m.modules name m.heap)

-- The value of an external symbol takes the place of its name.
pub op_loadext-Steady :
    (k : ℕ) (leaks : List Value) (m : Machine)
    → Steady (suc (suc k)) leaks m
    → Safe (Steady k leaks) (op_loadext m)
unfolding op_loadext
op_loadext-Steady k leaks m b = bind-Safe (pop-Steady [] (suc (suc k)) leaks m b) (λ (v, m') b'.
    bind-Safe (string_get-Safe (suc (suc k)) m'.heap (roots m' leaks) v b') (λ name _.
      bind-Safe (load_extern-Steady k leaks m' v name b')
        (λ m'' b''. drop_in-Steady k leaks m'' v b'')))
