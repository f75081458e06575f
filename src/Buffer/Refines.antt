-- ===== src/Buffer/Refines.antt =====
-- The buffer refines a list of bytes: each operation has its effect on the contents, keeps the
-- invariant of the header file, and so does every run of operations.
use mathlib.Core.Path.{subst}
use chammer.Prelude.{
  Option, none, some, true, false, leb, if◌then◌else◌, ℕ, ◌+◌, ◌%◌, ◌^◌, ◌<◌, ◌≤◌, ◌≡◌, refl, ap,
  List, [], ◌∷◌, ◌++◌, arith, length, take, length-append, length-take,
}
use chammer.Buffer.{
  Buffer, IsValid, buffer_init, buffer_putc, buffer_puts, buffer_printf, buffer_clear,
  buffer_truncate, shorten,
}
use chammer.Buffer.Laws.{puts-bytes, printf_loop-Printed}
use chammer.Buffer.Growth.{grow_loop_room}

pub data Op : Type 0 where
  putc : ℕ → Op
  puts : List ℕ → Op
  printf : List ℕ → Op
  clear : Op
  truncate : ℕ → Op

-- `none` is a failed assertion.
abbrev pub run_op : Op → Buffer → Option Buffer
run_op (putc c) b = some (buffer_putc b c)
run_op (puts str) b = some (buffer_puts b str).1
run_op (printf text) b = some (buffer_printf b text)
run_op clear b = some (buffer_clear b)
run_op (truncate n) b = buffer_truncate b n

abbrev pub effect : Op → List ℕ → Option (List ℕ)
effect (putc c) bs = some (bs ++ (c % 256) ∷ [])
effect (puts str) bs = some (bs ++ str)
effect (printf text) bs = some (bs ++ text)
effect clear bs = some []
effect (truncate n) bs = if leb n (length bs) then some (take n bs) else none

abbrev pub added : Op → ℕ
added (putc c) = 1
added (puts str) = length str
added (printf text) = length text
added clear = 0
added (truncate n) = 0

-- The two runs fail both, or the buffer is well formed and has the bytes of the list.
abbrev pub Refines : Option Buffer → Option (List ℕ) → Type 0
Refines (some b) (some bs) = IsValid b × (b.bytes ≡ bs)
Refines none none = Unit
Refines _ _ = ⊥

run_op-Refines :
    (op : Op) (b : Buffer)
    → IsValid b
    → length b.bytes + added op < 2 ^ 63
    → Refines (run_op op b) (effect op b.bytes)
unfolding buffer_putc buffer_puts buffer_printf buffer_clear buffer_truncate
run_op-Refines (putc c) b v h = (
  record {
    fits =
        rw (length-append b.bytes ((c % 256) ∷ []))
          (omega (arith, v.fits, grow_loop_room (length b.bytes + 1) b.capacity));
    terminated = refl;
  },
  refl,
)
run_op-Refines (puts str) b v h =
    let e = puts-bytes b str in
    (
      record {
        fits = rw e (
            rw length-append
              (grow_loop_room (length b.bytes + length str) b.capacity (omega (arith, v.fits)) h));
        terminated = refl;
      },
      e,
    )
run_op-Refines (printf text) b v h =
    let p = printf_loop-Printed b text (omega (arith, v.fits)) h in
    let e = ap (λ (xs : List ℕ). xs ++ text) p.kept in
    (
      record {
        fits = rw (p.written, p.kept, length-append b.bytes text) (p.room);
        terminated = refl;
      },
      rw (p.written, p.kept),
    )
run_op-Refines clear b v h = (record { fits = omega (arith, v.fits); terminated = refl }, refl)
run_op-Refines (truncate n) b v h =
    elim (leb n (length b.bytes))
      as (λ u.
        Refines (if u then some (shorten b n) else none)
          (if u then some (take n b.bytes) else none)) [
            | true ↦ (
              record {
                fits = rw (length-take n b.bytes) (omega (arith, v.fits));
                terminated = refl;
              },
              refl,
            )
            | false ↦ tt
          ]

abbrev pub run_all : List Op → Buffer → Option Buffer
run_all [] b = some b
run_all (op ∷ ops) b = elim (run_op op b) [ none ↦ none | some b' ↦ run_all ops b' ]

abbrev pub effects : List Op → List ℕ → Option (List ℕ)
effects [] bs = some bs
effects (op ∷ ops) bs = elim (effect op bs) [ none ↦ none | some bs' ↦ effects ops bs' ]

abbrev pub total : List Op → ℕ
total [] = 0
total (op ∷ ops) = added op + total ops

-- How long a list is, if there is one.
abbrev HasAtMost : ℕ → Option (List ℕ) → Type 0
HasAtMost n none = Unit
HasAtMost n (some bs) = length bs ≤ n

effect-HasAtMost : (op : Op) (bs : List ℕ) → HasAtMost (length bs + added op) (effect op bs)
effect-HasAtMost (putc c) bs = omega (arith, length-append bs ((c % 256) ∷ []))
effect-HasAtMost (puts str) bs = omega (arith, length-append bs str)
effect-HasAtMost (printf text) bs = omega (arith, length-append bs text)
effect-HasAtMost clear bs = omega arith
effect-HasAtMost (truncate n) bs =
    elim (leb n (length bs))
      as (λ u. HasAtMost (length bs + 0) (if u then some (take n bs) else none)) [
        | true ↦ omega (arith, length-take n bs)
        | false ↦ tt
      ]

pub run_all-Refines :
    (ops : List Op) (b : Buffer)
    → IsValid b
    → length b.bytes + total ops < 2 ^ 63
    → Refines (run_all ops b) (effects ops b.bytes)
run_all-Refines [] b v h = (v, refl)
run_all-Refines (op ∷ ops) b v h =
    after (run_op op b) (effect op b.bytes) (run_op-Refines op b v (omega arith))
      (effect-HasAtMost op b.bytes) (λ b'. run_all-Refines ops b')
  where
    after :
        (x : Option Buffer) (y : Option (List ℕ))
        → Refines x y
        → HasAtMost (length b.bytes + added op) y
        → ((b' : Buffer)
            → IsValid b'
            → length b'.bytes + total ops < 2 ^ 63
            → Refines (run_all ops b') (effects ops b'.bytes))
        → Refines
            (elim x as (λ _. Option Buffer) [ none ↦ none | some b' ↦ run_all ops b' ])
            (elim y as (λ _. Option (List ℕ)) [ none ↦ none | some bs' ↦ effects ops bs' ])
    after none none r few rest = tt
    after none (some bs) r few rest = elim r [ ]
    after (some b') none r few rest = elim r [ ]
    after (some b') (some bs) (v', e) few rest =
        subst (λ bs. Refines (run_all ops b') (effects ops bs)) e
          (rest b' v' (omega (arith, h, few, ap length e)))

-- From an initialised buffer any run of operations, of less than 2 ^ 63 bytes in all, fails where
-- the run on lists fails, at a truncation beyond the contents; or it leaves a terminated buffer with
-- room whose contents are those of the run on lists.
pub run_all-init :
    (ops : List Op) (m : ℕ → ℕ)
    → total ops < 2 ^ 63
    → Refines (run_all ops (buffer_init m)) (effects ops [])
unfolding buffer_init
run_all-init ops m h =
    run_all-Refines ops (buffer_init m) (record { fits = omega arith; terminated = refl })
      (omega arith)
