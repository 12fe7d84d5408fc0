-- ===== src/Error/Describe.antt =====
-- What the one-line description of an error shows.
use pipeline_c.Prelude.{
  ◌≡◌, refl, sym, ap, ◌∙◌, false, inl, inr, [], ◌∷◌, ◌++◌, subst, append_assoc, append-nil, Text,
  text_eq, text_eq_sound, Bool-cases, arith,
}
use pipeline_c.Error.{Error, category_name, has_message, describe_stage, describe}

-- `part` stands somewhere in `text`.
abbrev pub Contains : Text → Text → Type 0
Contains text part = (front : Text) × (back : Text) × (text ≡ front ++ (part ++ back))

pub Contains-self : (t : Text) → Contains t t
Contains-self t = ([], [], sym (append-nil t))

pub Contains-nil : (t : Text) → Contains t []
Contains-nil t = ([], t, refl)

pub Contains-append_left : (s t u : Text) → Contains s u → Contains (s ++ t) u
Contains-append_left s t u (front, back, e) = (
  front,
  back ++ t,
  ap (λ x. x ++ t) e
      ∙ append_assoc front (u ++ back) t
      ∙ ap (λ x. front ++ x) (append_assoc u back t),
)

pub Contains-append_right : (s t u : Text) → Contains t u → Contains (s ++ t) u
Contains-append_right s t u (front, back, e) =
    (s ++ front, back, ap (λ x. s ++ x) e ∙ sym (append_assoc s front (u ++ back)))

ruleset containment = (Contains-self, Contains-nil, Contains-append_left, Contains-append_right)

describe_parts :
    (k n : Text)
    → Contains (describe_stage (record { key = k; name = n })) n
      × Contains (describe_stage (record { key = k; name = n })) k
unfolding describe_stage
describe_parts [] [] = (Contains-nil _, Contains-nil _)
describe_parts (a ∷ k) [] = (Contains-nil _, Contains-self _)
describe_parts [] (b ∷ n) = (Contains-self _, Contains-nil _)
describe_parts (a ∷ k) (b ∷ n) = elim (Bool-cases (text_eq (a ∷ k) (b ∷ n))) [
  | inl e ↦ rw e (
    Contains-self _,
    subst (λ t. Contains t (a ∷ k)) {x = a ∷ k} (text_eq_sound (a ∷ k) (b ∷ n) e) (Contains-self _),
  )
  | inr e ↦ rw e (search containment, search containment)
]

pub message_or_nil : (value : Error) → has_message value ≡ false → value.message ≡ []
unfolding has_message
message_or_nil value h = ground arith

-- The description of an error shows the name of its category, its message, and the name and the
-- key of its stage.
pub describe-Contains :
    (value : Error)
    → Contains (describe value) (category_name value.category)
      × Contains (describe value) value.message
      × Contains (describe value) value.stage.name
      × Contains (describe value) value.stage.key
unfolding describe
describe-Contains value =
    let (name, key) = describe_parts value.stage.key value.stage.name in
    elim (Bool-cases (has_message value)) [
      | inl e ↦
          rw e (search containment, search containment, search containment, search containment)
      | inr e ↦ rw e (
        search containment,
        rw (message_or_nil value e) (Contains-nil _),
        search containment,
        search containment,
      )
    ]
