-- ===== src/Bgp/ExtCommunity/Text/Total.antt =====
-- The texts of extended communities never panic.
use Prim.Native.String.{String}
use gobmp.Prelude.{
  ℕ, suc, ◌%◌, ◌++◌, ◌≡◌, refl, ap, Bool, true, false, List, [], ◌∷◌, Option, none, some, length,
  map, ◌==◌, ◌||◌, if◌then◌else◌,
}
use gobmp.Go.{
  Res, ok, ◌>>=◌, NoError, Ends, index, slice, slice_from, uint16_at, uint32_at, copy_at,
}
use gobmp.Go.Reads.{Ends-ok, Ends-bind}
use gobmp.Go.Scan.{encode_all}
use gobmp.Bgp.Texts.{Texts}
use gobmp.Bgp.ExtCommunity.{ExtCommunity, value_from}
use gobmp.Bgp.ExtCommunity.RoundTrip.{
  Raw, encode_raw, meaning, has_six, unmarshal_ext_community-encode,
}
use gobmp.Bgp.ExtCommunity.Text.{
  uint16_from, uint32_from, type0, type1, type2, type3, type6, type8, type40, type80, type81,
  type82, six_bytes, ext_community_text, ext_community_texts, unmarshal_attr_ext_community,
}

-- A test whose two sides both come back, or a test in front of a call.
either :
    {A : Type 0} (b : Bool) (x y : Res A)
    → Ends NoError x
    → Ends NoError y
    → Ends NoError (if b then x else y)
either true x y p q = p
either false x y p q = q

bind_either :
    {A C : Type 0} (b : Bool) (x y : Res A) (f : A → C)
    → Ends NoError x
    → Ends NoError y
    → Ends NoError ((if b then x else y) >>= λ a. ok (f a))
bind_either b x y f p q =
    Ends-bind NoError (if b then x else y) (λ a. ok (f a)) (either b x y p q) (λ a e. tt)

-- What may stand behind six bytes of a value.
abbrev tail : Option ℕ → List ℕ
tail none = []
tail (some h) = h ∷ []

module _ (t : Texts) (s a b c d e f : ℕ) where
  type0-Ends : (g : Option ℕ) → Ends NoError (type0 t s (a ∷ b ∷ c ∷ d ∷ e ∷ f ∷ tail g))
  unfolding type0 uint16_at uint32_from slice slice_from
  type0-Ends none = tt
  type0-Ends (some h) = tt

  type1-Ends : (g : Option ℕ) → Ends NoError (type1 t s (a ∷ b ∷ c ∷ d ∷ e ∷ f ∷ tail g))
  unfolding type1 copy_at uint16_from slice slice_from
  type1-Ends none = tt
  type1-Ends (some h) = tt

  type2-Ends : (g : Option ℕ) → Ends NoError (type2 t s (a ∷ b ∷ c ∷ d ∷ e ∷ f ∷ tail g))
  unfolding type2 uint32_at uint16_from slice slice_from
  type2-Ends none = tt
  type2-Ends (some h) = tt

  type3-Ends : (g : Option ℕ) → Ends NoError (type3 t s (a ∷ b ∷ c ∷ d ∷ e ∷ f ∷ tail g))
  unfolding type3 uint16_at uint32_at slice
  type3-Ends none = bind_either (s == 0xc) _ _ _ tt tt
  type3-Ends (some h) = bind_either (s == 0xc) _ _ _ tt tt

  type6-Ends : (g : Option ℕ) → Ends NoError (type6 t s (a ∷ b ∷ c ∷ d ∷ e ∷ f ∷ tail g))
  unfolding type6 uint16_from uint32_from value_from uint32_at slice slice_from index
  type6-Ends none =
      bind_either (s == 1) _ _ _ tt
        (either (s == 2 || s == 3) _ _ tt (either (s == 0) _ _ tt (either (s == 6) _ _ tt tt)))
  type6-Ends (some h) =
      bind_either (s == 1) _ _ _ tt
        (either (s == 2 || s == 3) _ _ tt (either (s == 0) _ _ tt (either (s == 6) _ _ tt tt)))

  type40-Ends : (g : Option ℕ) → Ends NoError (type40 t s (a ∷ b ∷ c ∷ d ∷ e ∷ f ∷ tail g))
  unfolding type40 uint32_at slice
  type40-Ends none = tt
  type40-Ends (some h) = tt

  type80-Ends : (g : Option ℕ) → Ends NoError (type80 t s (a ∷ b ∷ c ∷ d ∷ e ∷ f ∷ tail g))
  unfolding type80 six_bytes uint16_at uint32_from slice slice_from
  type80-Ends none = bind_either (s == 6) _ _ _ tt (either (s == 8) _ _ tt tt)
  type80-Ends (some h) = tt

  type81-Ends : (g : Option ℕ) → Ends NoError (type81 t s (a ∷ b ∷ c ∷ d ∷ e ∷ f ∷ tail g))
  unfolding type81 six_bytes copy_at uint16_from slice slice_from
  type81-Ends none = bind_either (s == 8) _ _ _ tt tt
  type81-Ends (some h) = tt

  type82-Ends : (g : Option ℕ) → Ends NoError (type82 t s (a ∷ b ∷ c ∷ d ∷ e ∷ f ∷ tail g))
  unfolding type82 six_bytes uint32_at uint16_from slice slice_from
  type82-Ends none = bind_either (s == 8) _ _ _ tt tt
  type82-Ends (some h) = tt

module _ (t : Texts) (k : ℕ) where
  six_text :
      (o : Option ℕ) (a b c d e f : ℕ) (g : Option ℕ)
      → Ends NoError (
          ext_community_text t
            (record { ext_type = k; sub_type = o; value = a ∷ b ∷ c ∷ d ∷ e ∷ f ∷ tail g }))
  unfolding ext_community_text type8
  six_text o a b c d e f g =
      let s : ℕ = elim o [ none ↦ 0xff | some s ↦ s ] in
      either (k == 0) _ _ (type0-Ends t s a b c d e f g) (
        either (k == 1) _ _ (type1-Ends t s a b c d e f g) (
          either (k == 2) _ _ (type2-Ends t s a b c d e f g) (
            either (k == 3) _ _ (type3-Ends t s a b c d e f g) (
              either (k == 6) _ _ (type6-Ends t s a b c d e f g) (
                either (k == 8) _ _ tt (
                  either (k == 0x40) _ _ (type40-Ends t s a b c d e f g) (
                    either (k == 0x80) _ _ (type80-Ends t s a b c d e f g) (
                      either (k == 0x81) _ _ (type81-Ends t s a b c d e f g)
                        (either (k == 0x82) _ _ (type82-Ends t s a b c d e f g) tt)))))))))

module _ (t : Texts) where
  choice :
      (b : Bool) (x y : ExtCommunity)
      → Ends NoError (ext_community_text t x)
      → Ends NoError (ext_community_text t y)
      → Ends NoError (ext_community_text t (if b then x else y))
  choice true x y p q = p
  choice false x y p q = q

  meaning_text : (r : Raw) → Ends NoError (ext_community_text t (meaning r))
  meaning_text r = choice (has_six r) _ _ (six_text t r.t (some r.s) r.a r.b r.c r.d r.e r.f none) (
      choice (r.t % 64 == 3) _ _ (six_text t r.t (some r.s) r.c r.d r.e r.f 0 0 none)
        (six_text t r.t none r.s r.a r.b r.c r.d r.e (some r.f)))

  texts_total :
      (rs : List Raw)
      → (xs : List String) × (ext_community_texts t (map meaning rs) ≡ ok xs)
        × (length xs ≡ length rs)
  unfolding ext_community_texts
  texts_total [] = ([], refl, refl)
  texts_total (r ∷ rs) =
      let (x, e) = Ends-ok (ext_community_text t (meaning r)) (meaning_text r) in
      let (xs, h, n) = texts_total rs in (x ∷ xs, rw (e, h), ap suc n)

  -- An attribute of whole communities, whatever their types, always has its texts, one for each.
  pub unmarshal_attr_ext_community_total :
      (rs : List Raw) (rest : List ℕ)
      → (xs : List String) × (unmarshal_attr_ext_community t (record {
        len = length (encode_all encode_raw rs);
        mem = encode_all encode_raw rs ++ rest;
      })
          ≡ ok xs)
        × (length xs ≡ length rs)
  unfolding unmarshal_attr_ext_community
  unmarshal_attr_ext_community_total rs rest =
      rw (unmarshal_ext_community-encode rs rest) (texts_total rs)
