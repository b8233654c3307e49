-- ===== src/Base/Dicts.antt =====
-- A Python dict with string keys, as the list of its items in insertion order: an assignment to
-- a present key keeps its place, a new key goes to the end.
use Prim.Native.String.{String}
use text.Mathlib.Text.{◌==◌ as str_eq}
use text.Mathlib.TextEquality.{eq_iff}
use mathlib.Core.Path.{◌≡◌, refl}
use mathlib.Core.Bool.{Bool, true, false}
use mathlib.Core.Option.{Option, none, some}
use mathlib.Core.List.{List, [], ◌∷◌}
use native.Mathlib.Omega.{arith}
use huddle_cluster.Base.Tests.{if◌then◌else◌}

abbrev pub Dict {ℓ} : Type ℓ → Type ℓ
Dict V = List (String × V)

pub str_eq_refl : (key : String) → str_eq key key ≡ true
str_eq_refl key = (eq_iff key key).1 refl

module _ {ℓ} {V : Type ℓ} where
  -- `d.get(key)`
  unfoldable pub get : String → Dict V → Option V
  get key [] = none
  get key ((name, value) ∷ items) =
      let later = get key items in if str_eq name key then some value else later

  -- `key in d`
  unfoldable pub has_key : String → Dict V → Bool
  has_key key [] = false
  has_key key ((name, value) ∷ items) =
      let later = has_key key items in if str_eq name key then true else later

  -- `d[key] = new`
  unfoldable pub assign : String → V → Dict V → Dict V
  assign key new [] = (key, new) ∷ []
  assign key new ((name, value) ∷ items) =
      let later = (name, value) ∷ assign key new items in
      if str_eq name key then (name, new) ∷ items else later

  -- `d.pop(key, None)`; a dict has a key at most once.
  unfoldable pub pop : String → Dict V → Dict V
  pop key [] = []
  pop key ((name, value) ∷ items) =
      let others = pop key items in if str_eq name key then others else (name, value) ∷ others

  pub get-assign :
      (key asked : String) (new : V) (items : Dict V)
      → get asked (assign key new items) ≡ (if str_eq key asked then some new else get asked items)
  unfolding get assign
  get-assign key asked new [] = refl
  get-assign key asked new ((name, value) ∷ items) =
      ground (
        arith,
        get-assign key asked new items,
        eq_iff name asked,
        eq_iff name key,
        eq_iff key asked,
      )

  pub get-pop :
      (key asked : String) (items : Dict V)
      → get asked (pop key items) ≡ (if str_eq key asked then none else get asked items)
  unfolding get pop
  get-pop key asked [] = ground arith
  get-pop key asked ((name, value) ∷ items) =
      ground (arith, get-pop key asked items, eq_iff name asked, eq_iff name key, eq_iff key asked)

  -- A key that is assigned and popped is only popped.
  pub pop-assign :
      (key : String) (new : V) (items : Dict V) → pop key (assign key new items) ≡ pop key items
  unfolding pop assign
  pop-assign key new [] = ground (arith, str_eq_refl key)
  pop-assign key new ((name, value) ∷ items) = ground (arith, pop-assign key new items)

  -- A statement of every item.
  abbrev pub Every {κ} : (String → V → Type κ) → Dict V → Type κ
  Every P [] = Unit
  Every P ((name, value) ∷ items) = P name value × Every P items

  pub Every-assign {κ} :
      (P : String → V → Type κ) (key : String) (new : V) (items : Dict V)
      → ((name : String) → str_eq name key ≡ true → P name new)
      → Every P items
      → Every P (assign key new items)
  unfolding assign
  Every-assign P key new [] holds all = (holds key (str_eq_refl key), tt)
  Every-assign P key new ((name, value) ∷ items) holds all =
      ground (arith, holds name, Every-assign P key new items holds all.1)

  pub Every-pop {κ} :
      (P : String → V → Type κ) (key : String) (items : Dict V)
      → Every P items
      → Every P (pop key items)
  unfolding pop
  Every-pop P key [] all = tt
  Every-pop P key ((name, value) ∷ items) all = ground (arith, Every-pop P key items all.1)

  pub Every-get {κ} :
      (P : String → V → Type κ) (key : String) (value : V) (items : Dict V)
      → Every P items
      → get key items ≡ some value
      → P key value
  unfolding get
  Every-get P key value [] all found = absurd (cc)
  Every-get P key value ((name, other) ∷ items) all found =
      ground (arith, eq_iff name key, Every-get P key value items all.1)

  -- No key stands twice.
  abbrev pub Unique : Dict V → Type 0
  Unique [] = Unit
  Unique ((name, value) ∷ items) = (has_key name items ≡ false) × Unique items

  pub has_key-assign :
      (key asked : String) (new : V) (items : Dict V)
      → has_key asked (assign key new items)
        ≡ (if str_eq key asked then true else has_key asked items)
  unfolding has_key assign
  has_key-assign key asked new [] = refl
  has_key-assign key asked new ((name, value) ∷ items) = ground (
    arith,
    has_key-assign key asked new items,
    eq_iff name asked,
    eq_iff name key,
    eq_iff key asked,
  )

  pub has_key-pop :
      (key asked : String) (items : Dict V)
      → has_key asked (pop key items) ≡ (if str_eq key asked then false else has_key asked items)
  unfolding has_key pop
  has_key-pop key asked [] = ground arith
  has_key-pop key asked ((name, value) ∷ items) =
      ground
        (arith, has_key-pop key asked items, eq_iff name asked, eq_iff name key, eq_iff key asked)

  pub Unique-assign :
      (key : String) (new : V) (items : Dict V) → Unique items → Unique (assign key new items)
  unfolding assign has_key
  Unique-assign key new [] u = (refl, tt)
  Unique-assign key new ((name, value) ∷ items) u = ground (
    arith,
    eq_iff name key,
    eq_iff key name,
    has_key-assign key name new items,
    Unique-assign key new items u.1,
  )

  pub Unique-pop : (key : String) (items : Dict V) → Unique items → Unique (pop key items)
  unfolding pop has_key
  Unique-pop key [] u = tt
  Unique-pop key ((name, value) ∷ items) u =
      ground (arith, has_key-pop key name items, Unique-pop key items u.1)

  pub get_of_not_has_key :
      (key : String) (items : Dict V) → has_key key items ≡ false → get key items ≡ none
  unfolding has_key get
  get_of_not_has_key key [] absent = refl
  get_of_not_has_key key ((name, value) ∷ items) absent =
      ground (arith, get_of_not_has_key key items)
