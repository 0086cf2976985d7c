-- ===== src/Stream.antt =====
-- internal/domain/chat/streamtransform: types.go and pipeline.go, the chain of transformers that the
-- stream of a language model runs through. Tool calls, metadata and errors belong to clients and
-- are type parameters; `W` is the state that all transformers keep.
pub mod Order
pub mod Chain
pub mod Segmenter
pub mod Calls
pub mod Ending
pub mod Tests
use xiaozhi_esp32_server_gol.Common.{
  ℕ, String, Bool, true, false, Option, none, some, List, [], ◌∷◌, ◌++◌, ◌⊎◌, inl, inr,
  if◌then◌else◌,
}
use xiaozhi_esp32_server_gol.Common.Int.{ℤ}
use xiaozhi_esp32_server_gol.Common.Sorting.{sort_onto}
use xiaozhi_esp32_server_gol.Sentence.{Text}

pub data Kind : Type 0 where
  text_delta text_segment tool_calls : Kind
  -- Any other string.
  other : String → Kind

pub record Item (C M : Type 0) : Type 0 where
  pub kind : Kind
  pub text : Text
  pub calls : List C
  pub is_end : Bool
  pub meta : M

pub record Result (C M : Type 0) : Type 0 where
  pub items : List (Item C M)
  pub stop : Bool

-- `namedTransformer`
pub record Transformer (W C M E : Type 0) : Type 0 where
  pub name : String
  pub transform : Item C M → W → (E ⊎ Result C M) × W
  pub close : W → Option E × W

pub record Factory (W C M E : Type 0) : Type 0 where
  pub name : String
  pub priority : ℤ
  pub new : W → (E ⊎ Transformer W C M E) × W

-- What `Push` returns; an error carries the name of its transformer.
pub data Pushed (C M E : Type 0) : Type 0 where
  failed : String → E → Pushed C M E
  stopped : List (Item C M) → Pushed C M E
  pushed : List (Item C M) → Pushed C M E

module _ {W C M E : Type 0} where
  -- `Registry.Register`; `none` is a nil factory.
  unfoldable pub register :
      Option (Factory W C M E) → List (Factory W C M E) → List (Factory W C M E)
  register none fs = fs
  register (some f) fs = sort_onto (λ (g : Factory W C M E). g.priority) [] (fs ++ f ∷ [])

  -- `Registry.Open`: the first factory that fails ends it.
  unfoldable pub open_steps :
      List (Factory W C M E) → W → ((String × E) ⊎ List (Transformer W C M E)) × W
  open_steps [] w = (inr [], w)
  open_steps (f ∷ fs) w =
      let r = f.new w in
      let rest = open_steps fs r.1 in
      elim r.0 [
        | inl e ↦ (inl (f.name, e), r.1)
        | inr t ↦ elim rest.0 [ inl e ↦ (inl e, rest.1) | inr ts ↦ (inr (t ∷ ts), rest.1) ]
      ]

  -- The inner loop of `Push`: one transformer on the items, with those that it gave so far.
  unfoldable pub push_items :
      Transformer W C M E → List (Item C M) → List (Item C M) → W → Pushed C M E × W
  push_items t next [] w = (pushed next, w)
  push_items t next (i ∷ is) w =
      let r = t.transform i w in
      elim r.0 [
        | inl e ↦ (failed t.name e, r.1)
        | inr x ↦
            if x.stop
            then (stopped (next ++ x.items), r.1)
            else push_items t (next ++ x.items) is r.1
      ]

  -- The outer loop.
  unfoldable pub push_steps : List (Transformer W C M E) → List (Item C M) → W → Pushed C M E × W
  push_steps [] is w = (pushed is, w)
  push_steps (t ∷ ts) is w =
      let r = push_items t [] is w in elim r.0 [ pushed js ↦ push_steps ts js r.1 | _ ↦ r ]

  -- `Pipeline.Push`
  unfoldable pub push : List (Transformer W C M E) → Item C M → W → Pushed C M E × W
  push ts i w = push_steps ts (i ∷ []) w

  -- `Pipeline.Close`: every transformer is closed, and the first error is kept.
  unfoldable pub close_steps :
      Option (String × E) → List (Transformer W C M E) → W → Option (String × E) × W
  close_steps err [] w = (err, w)
  close_steps none (t ∷ ts) w =
      let r = t.close w in close_steps (elim r.0 [ none ↦ none | some e ↦ some (t.name, e) ]) ts r.1
  close_steps (some e) (t ∷ ts) w = close_steps (some e) ts (t.close w).1
