-- ===== src/Emit/Bytecode/Blocks.antt =====
-- The blocks of a function of source/emit/bytecode.c are a list linked both ways, in the order of their
-- serial numbers.
use mathlib.Core.List.{append_assoc}
use mathlib.Core.Path.{subst}
use atcc.Prelude.{
  ℕ, suc, ◌+◌, ◌%◌, ◌<◌, ◌≡◌, ◌≢◌, refl, sym, ap, ◌∙◌, arith, Option, none, some, List, [], ◌∷◌,
  ◌++◌, length, get_elem?, get_elem?-set_self, get_elem?-set_ne, set, length-append, u32_mod,
}
use atcc.Ati.Strings.{Bytes}
use atcc.Emit.Bytecode.Insns.{fresh_block, bc_block_make, bc_function_create, fresh_function}
use atcc.Emit.Bytecode.Places.{
  get_elem?-append_new, get_elem?-append_old, get_elem?-lt, set-append_new,
}
use atcc.Emit.Bytecode.{SbcBlock, SbcFunction, Heap}

abbrev pub first_of : List ℕ → Option ℕ
first_of [] = none
first_of (b ∷ bs) = some b

-- The blocks stand in the heap, numbered from `n`, each with its neighbours.
abbrev pub Linked : List SbcBlock → Option ℕ → List ℕ → ℕ → Type 0
Linked heap prev [] n = Unit {0}
Linked heap prev (b ∷ bs) n =
    (x : SbcBlock) × (get_elem? heap b ≡ some x)
    × (x.serial ≡ n)
    × (x.prev ≡ prev)
    × (x.next ≡ first_of bs)
    × Linked heap (some b) bs (n + 1)

Linked-last :
    (heap : List SbcBlock) (prev : Option ℕ) (bs : List ℕ) (last n : ℕ)
    → Linked heap prev (bs ++ last ∷ []) n
    → (x : SbcBlock) × (get_elem? heap last ≡ some x) × (x.serial ≡ n + length bs)
Linked-last heap prev [] last n (x, at, serial, p, q, l) = (x, at, omega (arith, serial))
Linked-last heap prev (b ∷ bs) last n (x, at, serial, p, q, l) =
    let (y, at', serial') = Linked-last heap (some b) bs last (n + 1) l in
    (y, at', omega (arith, serial'))

first_of-append :
    (bs : List ℕ) (last : ℕ) (more : List ℕ)
    → first_of (bs ++ last ∷ []) ≡ first_of (bs ++ last ∷ more)
first_of-append [] last more = refl
first_of-append (b ∷ bs) last more = refl

-- A block behind the last one: the last one's `next` is the new block, which has the next number.
module _ (heap heap' : List SbcBlock) {last new : ℕ} {l y : SbcBlock}
    (at_last : get_elem? heap last ≡ some l)
    (relinked : get_elem? heap' last ≡ some (record l { next = some new }))
    (at_new : get_elem? heap' new ≡ some y)
    (others : (p : ℕ) (x : SbcBlock)
      → p ≢ last
      → get_elem? heap p ≡ some x
      → get_elem? heap' p ≡ some x) where
  extend_Linked :
      (prev : Option ℕ) (bs : List ℕ) (n : ℕ)
      → y ≡ fresh_block (n + length bs + 1) (some last)
      → Linked heap prev (bs ++ last ∷ []) n
      → Linked heap' prev (bs ++ last ∷ new ∷ []) n
  extend_Linked prev [] n e (x, at, serial, p, q, rest) =
      let same : l ≡ x = ground (arith, at, at_last) in
      (
        record l { next = some new },
        relinked,
        ap SbcBlock.serial same ∙ serial,
        ap SbcBlock.prev same ∙ p,
        refl,
        (y, at_new, ap SbcBlock.serial e ∙ omega arith, ap SbcBlock.prev e, ap SbcBlock.next e, tt),
      )
  extend_Linked prev (b ∷ bs) n e (x, at, serial, p, q, rest) =
      let (z, at', serial') = Linked-last heap (some b) bs last (n + 1) rest in
      let apart : b ≢ last = λ same.
        let a : x ≡ z = ground (arith, at, at', same) in
        omega (arith, ap SbcBlock.serial a, serial, serial') in
      let shift : fresh_block (n + suc (length bs) + 1) (some last)
          ≡ fresh_block (n + 1 + length bs + 1) (some last) =
        ap (λ m. fresh_block m (some last)) (omega arith) in
      (
        x,
        others b x apart at,
        serial,
        p,
        q ∙ first_of-append bs last (new ∷ []),
        extend_Linked (some b) bs (n + 1) (e ∙ shift) rest,
      )

-- The function's blocks are `bs` and then `last`.
pub record IsChain (h : Heap) (function : ℕ) (bs : List ℕ) (last : ℕ) : Type 0 where
  pub f : SbcFunction
  pub is_function : get_elem? h.functions function ≡ some f
  pub first : f.first_block ≡ first_of (bs ++ last ∷ [])
  pub at_end : f.last_block ≡ some last
  pub counted : f.last_block_serial ≡ length bs + 1
  pub linked : Linked h.blocks none (bs ++ last ∷ []) 0

-- A new block of a function whose blocks are linked, and fewer than 2 ^ 32 - 2, is linked behind the
-- last one, with the next serial number.
pub bc_block_make-IsChain :
    (h : Heap) (function : ℕ) (bs : List ℕ) (last : ℕ)
    → IsChain h function bs last
    → length bs + 2 < u32_mod
    → (h' : Heap) × (bc_block_make function h ≡ some (length h.blocks, h'))
      × IsChain h' function (bs ++ last ∷ []) (length h.blocks)
unfolding bc_block_make
bc_block_make-IsChain h function bs last c room =
    let new = length h.blocks in
    let (l, at_last, serial) = Linked-last h.blocks none bs last 0 c.linked in
    let y = fresh_block c.f.last_block_serial (some last) in
    let heap' = set (h.blocks ++ y ∷ []) last (record l { next = some new }) in
    let f' = record c.f {
      last_block_serial = (c.f.last_block_serial + 1) % u32_mod;
      last_block = some new;
    } in
    let inside = get_elem?-lt h.blocks last at_last in
    let apart : last ≢ new = λ e. omega (arith, inside, e) in
    let older = get_elem?-append_old h.blocks y last at_last in
    let wide : length (h.blocks ++ y ∷ []) ≡ new + 1 = length-append h.blocks (y ∷ []) in
    let number : y ≡ fresh_block (0 + length bs + 1) (some last) =
      ap (λ m. fresh_block m (some last)) (omega (arith, c.counted)) in
    (
      record h { blocks = heap'; functions = set h.functions function f' },
      rw (c.is_function, c.at_end, older) refl,
      record {
        f = f';
        is_function =
            get_elem?-set_self h.functions function f'
              (get_elem?-lt h.functions function c.is_function);
        first =
            c.first
            ∙ first_of-append bs last (new ∷ [])
            ∙ ap first_of (sym (append_assoc bs (last ∷ []) (new ∷ [])));
        at_end = refl;
        counted = omega (arith, c.counted, room, length-append bs (last ∷ []));
        linked =
            subst (λ t. Linked heap' none t 0) (sym (append_assoc bs (last ∷ []) (new ∷ [])))
              (extend_Linked h.blocks heap' {l = l} {y = y} at_last
                (get_elem?-set_self (h.blocks ++ y ∷ []) last _ (omega (arith, inside, wide)))
                (get_elem?-set_ne (h.blocks ++ y ∷ []) last new _ apart
                  ∙ get_elem?-append_new h.blocks y)
                (λ p x ne at.
                  get_elem?-set_ne (h.blocks ++ y ∷ []) last p _ (λ e. ne (sym e))
                  ∙ get_elem?-append_old h.blocks y p at)
                none bs 0 number c.linked);
      },
    )

-- A new function has one block, which is the first and the last, with serial number 0.
pub bc_function_create-IsChain :
    (h : Heap) (signature : ℕ) (name : Bytes)
    → (h' : Heap) × (bc_function_create signature name h ≡ some (length h.functions, h'))
      × IsChain h' (length h.functions) [] (length h.blocks)
unfolding bc_function_create bc_block_make
bc_function_create-IsChain h signature name =
    let f = fresh_function signature name in
    let g = record f { last_block_serial = 1 } in
    let block = some (length h.blocks) in
    let g' = record g { first_block = block; last_block = block; current_block = block } in
    (
      record h {
        functions = h.functions ++ g' ∷ [];
        blocks = h.blocks ++ fresh_block 0 none ∷ [];
        context = record h.context { functions = h.context.functions ++ length h.functions ∷ [] };
      },
      rw
          (
            get_elem?-append_new h.functions f,
            set-append_new h.functions f g,
            get_elem?-append_new h.functions g,
            set-append_new h.functions g g',
          )
          refl,
      record {
        f = g';
        is_function = get_elem?-append_new h.functions g';
        first = refl;
        at_end = refl;
        counted = refl;
        linked = (fresh_block 0 none, get_elem?-append_new h.blocks _, refl, refl, refl, tt);
      },
    )
