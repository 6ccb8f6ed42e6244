-- ===== src/Dump/Written.antt =====
-- The dump of a function writes the bytes of its image, whatever the capacity of the buffer.
use mclua.Prelude.{
  ℕ, ◌+◌, ◌%◌, ◌^◌, ◌<◌, ◌≡◌, refl, ap, ◌∙◌, ◌⊎◌, inl, inr, List, [], ◌∷◌, ◌++◌, append-nil, Option,
  none, some, arith, length, take,
}
use mclua.Heap.{u64_mod}
use mclua.LFunc.{Constant, k_int, k_flt, k_str, UpvalDesc, LFunc}
use mclua.Dump.{
  FuncTree, func, FuncTrees, no_protos, proto, num_protos, Step, ◌>>◌, word_bytes, size_bytes,
  header_bytes, code_bytes, string_tag, lua_vnumint, lua_vnumflt, luac_flush, luac_put,
  luac_dump_size, luac_dump_string, luac_dump_header, dump_constant, constants_loop,
  luac_dump_constants, upvalues_loop, luac_dump_upvalues, luac_dump_debug, dump_body,
  luac_dump_function, protos_loop, luac_tofile,
}
use mclua.Dump.Image.{
  string_bytes, constant_bytes, constants_bytes, upvalues_bytes, debug_bytes, body_bytes,
  function_bytes, protos_bytes, file_bytes,
}
use mclua.Dump.Writes.{
  Short, Appends, Writes, Writes-nothing, Writes-then, luac_put-Writes, flush_cases,
}

module _ {File : Type 0} (fwrite : File → List ℕ → ℕ × File) (contents : File → List ℕ)
    (law : Appends fwrite contents) where
  abbrev W : Step File → List ℕ → Type 0
  W step bytes = Writes fwrite contents step bytes

  infixl 5 ◌then◌
  abbrev ◌then◌ :
      {first second : Step File} {bytes bytes' : List ℕ}
      → W first bytes
      → W second bytes'
      → W (first >> second) (bytes ++ bytes')
  w then w' = Writes-then fwrite contents law w w'

  abbrev put : (bytes : List ℕ) → W (luac_put fwrite bytes) bytes
  put bytes = luac_put-Writes fwrite contents law bytes

  luac_dump_size-Writes : (x : ℕ) → W (luac_dump_size fwrite x) (size_bytes x)
  unfolding luac_dump_size
  luac_dump_size-Writes x = put (size_bytes x)

  luac_dump_string-Writes :
      (str : Option (List ℕ)) → W (luac_dump_string fwrite str) (string_bytes str)
  unfolding luac_dump_string string_bytes
  luac_dump_string-Writes none = luac_dump_size-Writes 0
  luac_dump_string-Writes (some str) =
      luac_dump_size-Writes ((length str + 1) % u64_mod) then put str

  dump_constant-Writes : (c : Constant) → W (dump_constant fwrite c) (constant_bytes c)
  unfolding dump_constant constant_bytes
  dump_constant-Writes (k_int value) = put (lua_vnumint ∷ []) then put (word_bytes 8 value)
  dump_constant-Writes (k_flt bits) = put (lua_vnumflt ∷ []) then put (word_bytes 8 bits)
  dump_constant-Writes (k_str str) =
      put (string_tag str.chars ∷ []) then luac_dump_string-Writes (some str.chars)

  constants_loop-Writes :
      (consts : List Constant) → W (constants_loop fwrite consts) (constants_bytes consts)
  unfolding constants_loop constants_bytes
  constants_loop-Writes [] = Writes-nothing fwrite contents law
  constants_loop-Writes (c ∷ consts) = dump_constant-Writes c then constants_loop-Writes consts

  upvalues_loop-Writes : (ups : List UpvalDesc) → W (upvalues_loop fwrite ups) (upvalues_bytes ups)
  unfolding upvalues_loop upvalues_bytes
  upvalues_loop-Writes [] = Writes-nothing fwrite contents law
  upvalues_loop-Writes (up ∷ ups) =
      put (up.instack ∷ []) then put (up.idx ∷ []) then put (0 ∷ []) then upvalues_loop-Writes ups

  luac_dump_debug-Writes : W (luac_dump_debug fwrite) debug_bytes
  unfolding luac_dump_debug debug_bytes
  luac_dump_debug-Writes =
      luac_dump_size-Writes 0
      then luac_dump_size-Writes 0
      then luac_dump_size-Writes 0
      then luac_dump_size-Writes 0

  dump_body-Writes :
      (fn : LFunc) (source : Option (List ℕ))
      → W (dump_body fwrite fn source) (body_bytes fn source)
  unfolding dump_body body_bytes luac_dump_constants luac_dump_upvalues
  dump_body-Writes fn source =
      luac_dump_string-Writes source
      then luac_dump_size-Writes 0
      then luac_dump_size-Writes 0
      then put (fn.num_params ∷ [])
      then put (fn.is_vararg ∷ [])
      then put (fn.max_stack ∷ [])
      then (luac_dump_size-Writes (length fn.code) then put (code_bytes fn.code))
      then (luac_dump_size-Writes (length fn.consts) then constants_loop-Writes fn.consts)
      then (luac_dump_size-Writes fn.num_upvals
          then upvalues_loop-Writes (take fn.num_upvals fn.upval_items))

  luac_dump_header-Writes : (n : ℕ) → W (luac_dump_header fwrite n) (header_bytes n)
  unfolding luac_dump_header
  luac_dump_header-Writes n = put (header_bytes n)

  mutual
    unfolding luac_dump_function function_bytes

    luac_dump_function-Writes :
        (f : FuncTree) (source : Option (List ℕ))
        → W (luac_dump_function fwrite f source) (function_bytes f source)
    luac_dump_function-Writes (func fn protos) source =
        dump_body-Writes fn source
        then (luac_dump_size-Writes (num_protos protos) then protos_loop-Writes protos)
        then luac_dump_debug-Writes

    protos_loop-Writes : (ps : FuncTrees) → W (protos_loop fwrite ps) (protos_bytes ps)
    protos_loop-Writes no_protos = Writes-nothing fwrite contents law
    protos_loop-Writes (proto p ps) = luac_dump_function-Writes p none then protos_loop-Writes ps

  closed-Writes :
      {step : Step File} {bytes : List ℕ}
      → W step bytes
      → (out : File) (cap : ℕ) → cap < 2 ^ 63
      → (((elim ((step >> luac_flush fwrite) (record { out = out; bfr = []; cap = cap })) [
        | none ↦ none
        | some b' ↦ some b'.out
      ])
            ≡ none)
          × Short fwrite contents)
        ⊎ ((out' : File) × ((elim ((step >> luac_flush fwrite)
                (record { out = out; bfr = []; cap = cap })) [
                  | none ↦ none
                  | some b' ↦ some b'.out
                ])
              ≡ some out')
            × (contents out' ≡ contents out ++ bytes))
  closed-Writes {step} {bytes} w out cap small =
      elim (w.outcome (record { out = out; bfr = []; cap = cap })
        (record { within = omega arith; small = small })) [
          | inl (failed, short) ↦ inl (rw (failed, ◌>>◌) refl, short)
          | inr p ↦ elim (flush_cases fwrite contents law p.after) [
            | inl (failed, short) ↦ inl (rw (p.runs, ◌>>◌, failed) refl, short)
            | inr (out', flushed, all) ↦ inr (
              out',
              rw (p.runs, ◌>>◌, flushed) refl,
              all ∙ p.behind ∙ ap (λ put. put ++ bytes) (append-nil (contents out)),
            )
          ]
        ]

  -- Whatever the capacity of the buffer, below 2 ^ 63, and where a complete write appends its bytes
  -- to the file, a dump closes a file that has the bytes of the function's image behind what it had,
  -- all of them, or gives -1 and a write of the file was short.
  pub luac_tofile-Writes :
      (fn : LFunc) (protos : FuncTrees) (chunkname : List ℕ) (out : File) (scratchcap : ℕ)
      → scratchcap < 2 ^ 63
      → ((luac_tofile fwrite fn protos chunkname out scratchcap ≡ none) × Short fwrite contents)
        ⊎ ((out' : File) × (luac_tofile fwrite fn protos chunkname out scratchcap ≡ some out')
            × (contents out' ≡ contents out ++ file_bytes fn protos chunkname))
  unfolding luac_tofile file_bytes
  luac_tofile-Writes fn protos chunkname out scratchcap small =
      closed-Writes
        (luac_dump_header-Writes fn.num_upvals
          then luac_dump_function-Writes (func fn protos) (some chunkname))
        out scratchcap small
