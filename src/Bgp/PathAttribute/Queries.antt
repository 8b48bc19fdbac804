-- ===== src/Bgp/PathAttribute/Queries.antt =====
-- What the queries on an attribute list find.
use gobmp.Prelude.{
  ℕ, ◌+◌, ◌++◌, ◌≡◌, ◌≢◌, suc, ne→==, if◌then◌else◌, refl, ap, ◌∙◌, List, [], ◌∷◌, length, arith,
  Bool-cases, inl, inr, ◌⊎◌, All, ◌==◌,
}
use gobmp.Bgp.PathAttribute.{PathAttribute, nlri_type_from, get_nlri_type, mp_reach, mp_unreach}

-- The attribute is MP_REACH_NLRI or MP_UNREACH_NLRI.
abbrev pub IsMp : PathAttribute → Type 0
IsMp a = (a.attribute_type ≡ 14) ⊎ (a.attribute_type ≡ 15)

abbrev pub NotMp : PathAttribute → Type 0
NotMp a = (a.attribute_type ≢ 14) × (a.attribute_type ≢ 15)

-- The list has a first such attribute, behind `front`.
pub record FirstMp (attrs : List PathAttribute) (found : ℕ × ℕ) (i : ℕ) : Type 0 where
  pub front : List PathAttribute
  pub attribute : PathAttribute
  pub back : List PathAttribute
  pub split : attrs ≡ front ++ (attribute ∷ back)
  pub before : All NotMp front
  pub is_mp : IsMp attribute
  pub result : found ≡ (attribute.attribute_type, i + length front)

nlri_type_from_cases :
    (attrs : List PathAttribute) (i : ℕ)
    → (All NotMp attrs × (nlri_type_from i attrs ≡ (0, 0)))
      ⊎ FirstMp attrs (nlri_type_from i attrs) i
unfolding nlri_type_from
nlri_type_from_cases [] i = inl (tt, refl)
nlri_type_from_cases (a ∷ as') i = elim (Bool-cases (a.attribute_type == mp_reach)) [
  | inl e ↦ inr (record {
    front = [];
    attribute = a;
    back = as';
    split = refl;
    before = tt;
    is_mp = ground arith;
    result = ground arith;
  })
  | inr e ↦ elim (Bool-cases (a.attribute_type == mp_unreach)) [
    | inl e' ↦ inr (record {
      front = [];
      attribute = a;
      back = as';
      split = refl;
      before = tt;
      is_mp = ground arith;
      result = ground arith;
    })
    | inr e' ↦ elim (nlri_type_from_cases as' (i + 1)) [
      | inl (none, r) ↦ inl (((ground arith, ground arith), none), rw (e, e') r)
      | inr f ↦ inr (record {
        front = a ∷ f.front;
        attribute = f.attribute;
        back = f.back;
        split = ap (λ t. a ∷ t) f.split;
        before = ((ground arith, ground arith), f.before);
        is_mp = f.is_mp;
        result =
            rw (e, e') (f.result ∙ ap (λ (k : ℕ). (f.attribute.attribute_type, k)) (omega arith));
      })
    ]
  ]
]

-- `get_nlri_type` finds the type and the index of the first MP_REACH_NLRI or MP_UNREACH_NLRI
-- attribute, and answers (0, 0) where the update has neither.
pub get_nlri_type_first :
    (attrs : List PathAttribute)
    → (All NotMp attrs × (get_nlri_type attrs ≡ (0, 0))) ⊎ FirstMp attrs (get_nlri_type attrs) 0
unfolding get_nlri_type
get_nlri_type_first attrs = nlri_type_from_cases attrs 0

-- An empty list need not be told apart.
pub get_nlri_type_any :
    (attrs : List PathAttribute)
    → (if length attrs == 0 then (0, 0) else get_nlri_type attrs) ≡ get_nlri_type attrs
unfolding get_nlri_type nlri_type_from
get_nlri_type_any [] = refl
get_nlri_type_any (a ∷ attrs) = rw (ne→== (suc (length attrs)) 0 (λ z. omega arith))
