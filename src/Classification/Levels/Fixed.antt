-- ===== src/Classification/Levels/Fixed.antt =====
-- Normal forms are their own normal forms.
use fluxseer_rca.Base.{
  String, Bool, true, false, ◌||◌, ◌==◌, ◌!=◌, not, ◌≡◌, refl, ap, inl, inr, Bool-cases, Char,
  trim_space, to_lower, trim_space_idem, str_eq→eq,
}
use fluxseer_rca.Classification.Levels.{
  level_internal, level_named, normalize_level, rank_of, level_value, tag_named,
  normalize_sensitivity_tag,
}

of_not : (b : Bool) → not b ≡ false → b ≡ true
of_not true h = refl
of_not false h = cc

module _ (beyond : Char → Char) where
  unknown_level :
      (key level : String)
      → to_lower beyond (trim_space level) ≡ key
      → (key == "public") ≡ false
      → (key == "internal" || key == "") ≡ false
      → (key == "confidential") ≡ false
      → (key == "restricted") ≡ false
      → normalize_level beyond (trim_space level) ≡ trim_space level
  unfolding level_named normalize_level
  unknown_level key level h n m o p = rw (trim_space_idem level, h, n, m, o, p) refl

  level_named_fixed :
      (key level : String)
      → to_lower beyond (trim_space level) ≡ key
      → normalize_level beyond (level_named key level) ≡ level_named key level
  unfolding level_named normalize_level to_lower trim_space
  level_named_fixed key level h = elim (Bool-cases (key == "public")) [
    | inl e ↦ rw e refl
    | inr n ↦ elim (Bool-cases (key == "internal" || key == "")) [
      | inl e ↦ rw (n, e) refl
      | inr m ↦ elim (Bool-cases (key == "confidential")) [
        | inl e ↦ rw (n, m, e) refl
        | inr o ↦ elim (Bool-cases (key == "restricted")) [
          | inl e ↦ rw (n, m, o, e) refl
          | inr p ↦ rw (n, m, o, p) (unknown_level key level h n m o p)
        ]
      ]
    ]
  ]

  pub normalize_level_fixed :
      (level : String)
      → normalize_level beyond (normalize_level beyond level) ≡ normalize_level beyond level
  unfolding normalize_level
  normalize_level_fixed level = level_named_fixed (to_lower beyond (trim_space level)) level refl

  pub level_value_normal :
      (level : String)
      → level_value beyond (normalize_level beyond level) ≡ level_value beyond level
  unfolding level_value
  level_value_normal level =
      ap (λ (l : String). rank_of (to_lower beyond l)) (normalize_level_fixed level)

  pub level_value_internal : level_value beyond level_internal ≡ 1
  unfolding level_value normalize_level level_named rank_of to_lower trim_space
  level_value_internal = refl

  pub level_value_blank : level_value beyond "" ≡ 1
  unfolding level_value normalize_level level_named rank_of to_lower trim_space
  level_value_blank = refl

  -- A level that is empty but for spaces is internal.
  pub level_value_empty :
      (level : String) → (trim_space level != "") ≡ false → level_value beyond level ≡ 1
  unfolding level_value normalize_level level_named rank_of to_lower
  level_value_empty level h =
      rw (str_eq→eq (trim_space level) "" (of_not (trim_space level == "") h)) refl

  unknown_tag :
      (key tag : String)
      → to_lower beyond (trim_space tag) ≡ key
      → (key == "credentiallike" || key == "secretlike") ≡ false
      → (key == "personaldata") ≡ false
      → (key == "customerdata") ≡ false
      → (key == "sourcecode") ≡ false
      → (key == "infrastructuremetadata") ≡ false
      → (key == "securitysensitive") ≡ false
      → normalize_sensitivity_tag beyond (trim_space tag) ≡ trim_space tag
  unfolding tag_named normalize_sensitivity_tag
  unknown_tag key tag h a b c d f g = rw (trim_space_idem tag, h, a, b, c, d, f, g) refl

  tag_named_fixed :
      (key tag : String)
      → to_lower beyond (trim_space tag) ≡ key
      → normalize_sensitivity_tag beyond (tag_named key tag) ≡ tag_named key tag
  unfolding tag_named normalize_sensitivity_tag to_lower trim_space
  tag_named_fixed key tag h = elim (Bool-cases (key == "credentiallike" || key == "secretlike")) [
    | inl e ↦ rw e refl
    | inr a ↦ elim (Bool-cases (key == "personaldata")) [
      | inl e ↦ rw (a, e) refl
      | inr b ↦ elim (Bool-cases (key == "customerdata")) [
        | inl e ↦ rw (a, b, e) refl
        | inr c ↦ elim (Bool-cases (key == "sourcecode")) [
          | inl e ↦ rw (a, b, c, e) refl
          | inr d ↦ elim (Bool-cases (key == "infrastructuremetadata")) [
            | inl e ↦ rw (a, b, c, d, e) refl
            | inr f ↦ elim (Bool-cases (key == "securitysensitive")) [
              | inl e ↦ rw (a, b, c, d, f, e) refl
              | inr g ↦ rw (a, b, c, d, f, g) (unknown_tag key tag h a b c d f g)
            ]
          ]
        ]
      ]
    ]
  ]

  pub normalize_tag_fixed :
      (tag : String)
      → normalize_sensitivity_tag beyond (normalize_sensitivity_tag beyond tag)
        ≡ normalize_sensitivity_tag beyond tag
  unfolding normalize_sensitivity_tag
  normalize_tag_fixed tag = tag_named_fixed (to_lower beyond (trim_space tag)) tag refl
