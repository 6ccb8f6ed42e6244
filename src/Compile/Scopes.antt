-- ===== src/Compile/Scopes.antt =====
-- The rule of scopes: which variable a name is, and which one an upvalue is.
use mclua.Prelude.{
  ℕ, suc, ◌<◌, ◌≡◌, ◌≢◌, refl, sym, ap, ◌∙◌, inl, inr, List, [], ◌∷◌, Option, none, some, ◌==◌,
  if◌then◌else◌, length, get_elem?, Bool-cases, Option-cases,
}
use mclua.LFunc.{UpvalDesc}
use mclua.Compile.{Frame, mccomp_resolve_local}

-- A local of an enclosing function: how many functions lie between, and its register.
abbrev pub Variable : Type 0
Variable = ℕ × ℕ

abbrev pub deeper : Option Variable → Option Variable
deeper none = none
deeper (some (depth, reg)) = some (suc depth, reg)

-- The local of the next function, or else what is further out.
unfoldable pub nearer : Option ℕ → Option Variable → Option Variable
nearer none further = deeper further
nearer (some reg) further = some (0, reg)

-- The rule of scopes: a name is the local of the innermost enclosing function that has one.
unfoldable pub variable : List Frame → ℕ → Option Variable
unfolding nearer
variable [] name = none
variable (p ∷ ps) name = nearer (mccomp_resolve_local p name) (variable ps name)

-- What a description of an upvalue stands for, given what the upvalues of the enclosing function are.
unfoldable pub described : Option UpvalDesc → (ℕ → Option Variable) → Option Variable
described none outer = none
described (some d) outer = if d.instack == 1 then some (0, d.idx) else deeper (outer d.idx)

-- What an upvalue is when the function runs: a register of the enclosing function, or an upvalue of
-- it.
unfoldable pub captured : Frame → List Frame → ℕ → Option Variable
unfolding described
captured f [] i = none
captured f (p ∷ ps) i = described (get_elem? f.func.upval_items i) (captured p ps)

-- Upvalue `i` of a function is the variable that the name has there.
pub record Reaches (f : Frame) (ps : List Frame) (i name : ℕ) : Type 0 where
  pub target : Variable
  pub held : captured f ps i ≡ some target
  pub meant : variable ps name ≡ some target

-- Every upvalue of a function but that of _ENV is the variable of its name.
pub record IsScoped (env : ℕ) (f : Frame) (ps : List Frame) : Type 0 where
  pub counted : f.func.num_upvals ≡ length f.func.upval_items
  pub reaches :
      (i : ℕ) (d : UpvalDesc)
      → get_elem? f.func.upval_items i ≡ some d
      → d.name ≢ env
      → Reaches f ps i d.name

pub data AllScoped (env : ℕ) : Frame → List Frame → Type 0 where
  outermost : {f : Frame} → IsScoped env f [] → AllScoped env f []
  within :
      {f p : Frame} {ps : List Frame}
      → IsScoped env f (p ∷ ps)
      → AllScoped env p ps
      → AllScoped env f (p ∷ ps)

pub data AllFew : Frame → List Frame → Type 0 where
  few_outermost : {f : Frame} → f.func.num_upvals < 255 → AllFew f []
  few_within :
      {f p : Frame} {ps : List Frame} → f.func.num_upvals < 255 → AllFew p ps → AllFew f (p ∷ ps)

-- A frame with the locals of another, and its upvalues at their numbers.
pub record Extends (f f' : Frame) : Type 0 where
  pub locals : f'.locals ≡ f.locals
  pub nactive : f'.nactive ≡ f.nactive
  pub upvals :
      (i : ℕ) (d : UpvalDesc)
      → get_elem? f.func.upval_items i ≡ some d
      → get_elem? f'.func.upval_items i ≡ some d

pub data AllExtend : List Frame → List Frame → Type 0 where
  no_frames : AllExtend [] []
  frames :
      {f f' : Frame} {ps ps' : List Frame}
      → Extends f f'
      → AllExtend ps ps'
      → AllExtend (f ∷ ps) (f' ∷ ps')

pub Extends-refl : (f : Frame) → Extends f f
Extends-refl f = record { locals = refl; nactive = refl; upvals = λ i d e. e }

pub AllExtend-refl : (ps : List Frame) → AllExtend ps ps
AllExtend-refl [] = no_frames
AllExtend-refl (p ∷ ps) = frames (Extends-refl p) (AllExtend-refl ps)

pub resolve_local-Extends :
    (f f' : Frame) (name : ℕ)
    → Extends f f'
    → mccomp_resolve_local f' name ≡ mccomp_resolve_local f name
unfolding mccomp_resolve_local
resolve_local-Extends f f' name e = rw (e.locals, e.nactive) refl

variable-AllExtend :
    (ps ps' : List Frame) (name : ℕ) → AllExtend ps ps' → variable ps' name ≡ variable ps name
unfolding variable
variable-AllExtend _ _ name no_frames = refl
variable-AllExtend (f ∷ ps) (f' ∷ ps') name (frames e es) =
    λ i. nearer (resolve_local-Extends f f' name e i) (variable-AllExtend ps ps' name es i)

deeper-some :
    (o : Option Variable) (v : Variable)
    → deeper o ≡ some v
    → (w : Variable) × (o ≡ some w) × (v ≡ (suc w.0, w.1))
deeper-some none v h = cc
deeper-some (some w) v h = (w, refl, cc)

described_mono :
    (o : Option UpvalDesc) (outer outer' : ℕ → Option Variable) (v : Variable)
    → ((i : ℕ) (w : Variable) → outer i ≡ some w → outer' i ≡ some w)
    → described o outer ≡ some v
    → described o outer' ≡ some v
unfolding described
described_mono none outer outer' v mono h = cc
described_mono (some d) outer outer' v mono h = elim (Bool-cases (d.instack == 1)) [
  | inl held ↦ rw held (rw held at h)
  | inr passed ↦
      let (w, e, same) = deeper-some (outer d.idx) v (rw passed at h) in
      rw (passed, mono d.idx w e) (ap some (sym same))
]

captured-AllExtend :
    (f f' : Frame) (ps ps' : List Frame)
    → Extends f f'
    → AllExtend ps ps'
    → (i : ℕ) (v : Variable) → captured f ps i ≡ some v
    → captured f' ps' i ≡ some v
unfolding captured
captured-AllExtend f f' _ _ e no_frames i v h = cc
captured-AllExtend f f' (p ∷ ps) (p' ∷ ps') e (frames e' es) i v h =
    elim (Option-cases (get_elem? f.func.upval_items i)) [
      | inl missing ↦ cc (rw missing at h)
      | inr (d, there) ↦ rw (e.upvals i d there) (
          described_mono (some d) (captured p ps) (captured p' ps') v
            (captured-AllExtend p p' ps ps' e' es) (rw there at h))
    ]

pub Reaches-AllExtend :
    (f f' : Frame) (ps ps' : List Frame) (i name : ℕ)
    → Extends f f'
    → AllExtend ps ps'
    → Reaches f ps i name
    → Reaches f' ps' i name
Reaches-AllExtend f f' ps ps' i name e es r = record {
  target = r.target;
  held = captured-AllExtend f f' ps ps' e es i r.target r.held;
  meant = variable-AllExtend ps ps' name es ∙ r.meant;
}
