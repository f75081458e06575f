-- ===== src/Compiler/Write/Accepted.antt =====
-- What `compiler_write_program` of lib/compiler.c writes is what `program_read` of lib/bytecode.c
-- takes apart.
use chammer.Prelude.{
  ℕ, suc, ◌≤◌, ◌≡◌, refl, sym, ap, ◌∙◌, some, List, [], ◌∷◌, ◌++◌, length, append_assoc, append-nil,
  arith, IsU32,
}
use chammer.Buffer.{Buffer, cells, buffer_puts}
use chammer.Buffer.Laws.{puts-bytes, write_at-append, length-cells}
use chammer.Bytes.{write_u16be, write_u32be, buffer_put_u16be, buffer_put_u32be, checked_u32}
use chammer.Bytes.RoundTrip.{put_word-bytes}
use chammer.Bytecode.Program.{
  FuncMeta, func_meta_bytes, func_meta_size, bytecode_put_func_meta, magic, bytecode_version,
  program_read, accepted,
}
use chammer.Bytecode.Program.Image.{
  table, image, program_of, program_read-image, length-func_meta_bytes,
}
use chammer.StringMap.{string_pool_contents}
use chammer.Compiler.Blocks.{Compiler, Block, Func}
use chammer.Compiler.Write.{
  resolve_jumps, meta_of, put_funcs, put_blocks, put_strings, compiler_write_program,
}

-- The code of blocks that stand one behind the other.
unfoldable pub code_of : List Block → List ℕ
code_of [] = []
code_of (b ∷ bs) = b.bytecode.bytes ++ code_of bs

-- The second list is the metadata of the functions of the first.
unfoldable pub AreMetas : List Block → List Func → List FuncMeta → Type 0
AreMetas bs [] [] = Unit
AreMetas bs (f ∷ fs) (fn ∷ fns) = (meta_of bs f ≡ some fn) × AreMetas bs fs fns
AreMetas bs _ _ = ⊥

module _ (b : Buffer) where
  put_func_meta-bytes :
      (fn : FuncMeta) → (bytecode_put_func_meta b fn).bytes ≡ b.bytes ++ func_meta_bytes fn
  unfolding bytecode_put_func_meta
  put_func_meta-bytes fn =
      write_at-append b.bytes (func_meta_bytes fn) (cells func_meta_size b.spare)
        (length-cells func_meta_size b.spare ∙ sym (length-func_meta_bytes fn))

  put_u16be-bytes : (v : ℕ) → (buffer_put_u16be b v).bytes ≡ b.bytes ++ write_u16be v
  unfolding buffer_put_u16be
  put_u16be-bytes v = put_word-bytes b 2 (write_u16be v) refl

  put_u32be-bytes : (v : ℕ) → (buffer_put_u32be b v).bytes ≡ b.bytes ++ write_u32be v
  unfolding buffer_put_u32be
  put_u32be-bytes v = put_word-bytes b 4 (write_u32be v) refl

put_funcs-table :
    (bs : List Block) (fs : List Func) (fns : List FuncMeta) (b : Buffer)
    → AreMetas bs fs fns
    → (out : Buffer) × (put_funcs bs fs b ≡ some out) × (out.bytes ≡ b.bytes ++ table fns)
unfolding put_funcs table AreMetas
put_funcs-table bs [] [] b metas = (b, refl, sym (append-nil b.bytes))
put_funcs-table bs [] (fn ∷ fns) b metas = elim metas [ ]
put_funcs-table bs (f ∷ fs) [] b metas = elim metas [ ]
put_funcs-table bs (f ∷ fs) (fn ∷ fns) b (e, metas) =
    let (out, r, same) = put_funcs-table bs fs fns (bytecode_put_func_meta b fn) metas in
    (
      out,
      rw e r,
      same
          ∙ ap (λ (w : List ℕ). w ++ table fns) (put_func_meta-bytes b fn)
          ∙ append_assoc b.bytes (func_meta_bytes fn) (table fns),
    )

put_blocks-code : (bs : List Block) (b : Buffer) → (put_blocks bs b).bytes ≡ b.bytes ++ code_of bs
unfolding put_blocks code_of
put_blocks-code [] b = sym (append-nil b.bytes)
put_blocks-code (block ∷ bs) b =
    put_blocks-code bs (buffer_puts b block.bytecode.bytes).1
    ∙ ap (λ (w : List ℕ). w ++ code_of bs) (puts-bytes b block.bytecode.bytes)
    ∙ append_assoc b.bytes block.bytecode.bytes (code_of bs)

length-metas :
    (bs : List Block) (fs : List Func) (fns : List FuncMeta)
    → AreMetas bs fs fns
    → length fs ≡ length fns
unfolding AreMetas
length-metas bs [] [] metas = refl
length-metas bs [] (fn ∷ fns) metas = elim metas [ ]
length-metas bs (f ∷ fs) [] metas = elim metas [ ]
length-metas bs (f ∷ fs) (fn ∷ fns) (e, metas) = ap suc (length-metas bs fs fns metas)

flat :
    (b m v l s f t c : List ℕ)
    → b ++ m ++ v ++ l ++ s ++ f ++ t ++ c ≡ b ++ (m ++ (v ++ (l ++ (s ++ (f ++ (t ++ c))))))
flat b m v l s f t c = simp (append_assoc)

checked_u32-some : (v : ℕ) → IsU32 v → checked_u32 v ≡ some v
checked_u32-some v h = ground arith

module _ (c : Compiler) (b : Buffer) where
  abbrev strings : List ℕ
  strings = string_pool_contents c.strings

  put_strings-bytes :
      IsU32 (length strings)
      → (out : Buffer) × (put_strings strings b ≡ some out)
        × (out.bytes
            ≡ b.bytes
              ++ magic
              ++ write_u16be bytecode_version
              ++ write_u32be (length strings)
              ++ strings)
  unfolding put_strings
  put_strings-bytes fits =
      let b₁ = (buffer_puts b magic).1 in
      let b₂ = buffer_put_u16be b₁ bytecode_version in
      let b₃ = buffer_put_u32be b₂ (length strings) in
      (
        (buffer_puts b₃ strings).1,
        ground (arith, fits),
        rw
            (
              puts-bytes b₃ strings,
              put_u32be-bytes b₂ (length strings),
              put_u16be-bytes b₁ bytecode_version,
              puts-bytes b magic,
            )
            refl,
      )

  write_program-image :
      (bs : List Block) (fns : List FuncMeta)
      → IsU32 (length strings)
      → IsU32 (length c.funcs)
      → resolve_jumps c.jumps c.blocks ≡ some bs
      → AreMetas bs c.funcs fns
      → (out : Buffer) × (compiler_write_program c b ≡ some out)
        × (out.bytes ≡ b.bytes ++ image strings fns (code_of bs))
  unfolding compiler_write_program image
  write_program-image bs fns strings_fit funcs_fit resolved metas =
      let (b₁, r₁, s₁) = put_strings-bytes strings_fit in
      let (b₂, r₂, s₂) =
        put_funcs-table bs c.funcs fns (buffer_put_u32be b₁ (length c.funcs)) metas in
      (
        put_blocks bs b₂,
        rw (r₁, checked_u32-some (length c.funcs) funcs_fit, resolved, r₂) refl,
        put_blocks-code bs b₂
            ∙ ap (λ (w : List ℕ). w ++ code_of bs)
                (s₂
                  ∙ ap (λ (w : List ℕ). w ++ table fns)
                      (put_u32be-bytes b₁ (length c.funcs)
                        ∙ ap (λ (w : List ℕ). w ++ write_u32be (length c.funcs)) s₁))
            ∙ ap
                (λ (n : ℕ).
                  b.bytes
                  ++ magic
                  ++ write_u16be bytecode_version
                  ++ write_u32be (length strings)
                  ++ strings
                  ++ write_u32be n
                  ++ table fns
                  ++ code_of bs)
                (length-metas bs c.funcs fns metas)
            ∙ flat b.bytes magic (write_u16be bytecode_version) (write_u32be (length strings))
                strings (write_u32be (length fns)) (table fns) (code_of bs),
      )

-- If the strings and functions are fewer than 2 ^ 32, every jump is resolved, no metadata is out of
-- its bounds, and there are at least four bytes of code, then the compiler writes a program into an
-- empty buffer without panic, and it is accepted when it is read back, with the strings, the table
-- of functions and the code of the blocks in their order.
pub compiler_write_program-accepted :
    (c : Compiler) (b : Buffer) (bs : List Block) (fns : List FuncMeta)
    → b.bytes ≡ []
    → IsU32 (length (string_pool_contents c.strings))
    → IsU32 (length c.funcs)
    → resolve_jumps c.jumps c.blocks ≡ some bs
    → AreMetas bs c.funcs fns
    → 4 ≤ length (code_of bs)
    → (out : Buffer) × (compiler_write_program c b ≡ some out)
      × (program_read out.bytes
          ≡ accepted (program_of (string_pool_contents c.strings) fns (code_of bs)))
compiler_write_program-accepted c b bs fns empty strings_fit funcs_fit resolved metas room =
    let (out, r, same) = write_program-image c b bs fns strings_fit funcs_fit resolved metas in
    let count = length-metas bs c.funcs fns metas in
    (
      out,
      r,
      rw (same, empty)
          (program_read-image (string_pool_contents c.strings) fns (code_of bs) strings_fit
            (rw (← count) funcs_fit) room),
    )
