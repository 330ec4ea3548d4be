-- ===== src/Source/Preflight/Reversible.antt =====
-- Which servers checkSettings of internal/source/mysql/preflight.go admits.
use mulligan.Base.{
  ◌≡◌, ◌↔◌, refl, sym, ap, ◌∙◌, true, false, Option, none, some, List, [], ◌∷◌, ◌++◌, All, ok, err,
  Bool-cases, Result-cases, Result, inl, inr, arith,
}
use mulligan.Base.Text.{Bytes, codes, has_prefix}
use mulligan.Base.Unicode.{Unicode}
use mulligan.Source.Preflight.{
  Setting, SettingsError, required_settings, or_empty, has_part, check_setting, check_options,
  check_each, check_settings,
}

-- A text stands somewhere in another.
abbrev pub IsPart : Bytes → Bytes → Type 0
IsPart part s = (before : Bytes) × (after : Bytes) × (s ≡ before ++ (part ++ after))

prefix-rest : (s part : Bytes) → has_prefix s part ≡ true → (after : Bytes) × (s ≡ part ++ after)
unfolding has_prefix
prefix-rest s [] h = (s, refl)
prefix-rest [] (c ∷ part) h = cc
prefix-rest (d ∷ s) (c ∷ part) h = ground (arith, prefix-rest s part)

prefix-append : (part after : Bytes) → has_prefix (part ++ after) part ≡ true
unfolding has_prefix
prefix-append [] after = ground arith
prefix-append (c ∷ part) after = ground (arith, prefix-append part after)

has_part-IsPart : (part s : Bytes) → has_part part s ≡ true → IsPart part s
unfolding has_part
has_part-IsPart part [] h = (let r = prefix-rest [] part h in ([], r.0, r.1))
has_part-IsPart part (c ∷ s) h = elim (Bool-cases (has_prefix (c ∷ s) part)) [
  | inl e ↦ (let r = prefix-rest (c ∷ s) part e in ([], r.0, r.1))
  | inr e ↦ let r = has_part-IsPart part s (rw (e) at h) in (c ∷ r.0, r.1, ap (λ t. c ∷ t) r.2)
]

prefix-has_part : (part s : Bytes) → has_prefix s part ≡ true → has_part part s ≡ true
unfolding has_part
prefix-has_part part [] h = h
prefix-has_part part (c ∷ s) h = rw (h) refl

has_part-append : (part before after : Bytes) → has_part part (before ++ (part ++ after)) ≡ true
unfolding has_part
has_part-append part [] after = prefix-has_part part (part ++ after) (prefix-append part after)
has_part-append part (c ∷ before) after =
    elim (Bool-cases (has_prefix (c ∷ (before ++ (part ++ after))) part)) [
      | inl e ↦ rw (e) refl
      | inr e ↦ rw (e) (has_part-append part before after)
    ]

no_err : {x : SettingsError} → ◌≡◌ {A = Result SettingsError (Unit {0})} (err x) (ok tt) → ⊥
no_err h = cc

module _ (u : Unicode) where
  -- A setting is reported, with the value it must have, in letters of either case.
  abbrev pub Reported : Bytes → Option Bytes → Type 0
  Reported want o = (got : Bytes) × (o ≡ some got) × (u.equal_fold got want ≡ true)

  -- Every setting is as it must be, and values of JSON columns are not logged as differences.
  abbrev Reversible : List Setting → (Bytes → Option Bytes) → Type 0
  Reversible settings vars =
      All (λ (s : Setting). Reported s.want (vars s.name)) settings
      × ¬ (
          IsPart (codes "PARTIAL_JSON")
            (u.to_upper (or_empty (vars (codes "binlog_row_value_options")))))

  check_setting-Reported :
      (s : Setting) (o : Option Bytes) → (check_setting u s o ≡ ok tt) ↔ Reported s.want o
  unfolding check_setting
  check_setting-Reported s none = ((λ h. absurd (no_err h)), λ h. absurd (no_value h.1))
    where
      no_value : {x : Bytes} → ◌≡◌ {A = Option Bytes} none (some x) → ⊥
      no_value h = cc
  check_setting-Reported s (some got) = elim (Bool-cases (u.equal_fold got s.want)) [
    | inl e ↦ rw (e) ((λ h. (got, refl, e)), λ h. refl)
    | inr e ↦ rw (e) ((λ h. absurd (no_err h)), λ h. absurd (differ h.0 h.1 e h.2))
  ]
    where
      differ :
          (x : Bytes)
          → some got ≡ some x
          → u.equal_fold got s.want ≡ false
          → u.equal_fold x s.want ≡ true
          → ⊥
      differ x p e h = cc

  check_options-none :
      (v : Bytes) → (check_options u v ≡ ok tt) ↔ ¬ (IsPart (codes "PARTIAL_JSON") (u.to_upper v))
  unfolding check_options
  check_options-none v = elim (Bool-cases (has_part (codes "PARTIAL_JSON") (u.to_upper v))) [
    | inl e ↦ rw (e) (
      (λ h. absurd (no_err h)),
      λ h. absurd (h (has_part-IsPart (codes "PARTIAL_JSON") (u.to_upper v) e)),
    )
    | inr e ↦ rw (e) (
      (λ h q. clash (
          sym e
          ∙ ap (has_part (codes "PARTIAL_JSON")) q.2
          ∙ has_part-append (codes "PARTIAL_JSON") q.0 q.1)),
      λ h. refl,
    )
  ]
    where
      clash : false ≡ true → ⊥
      clash h = cc

  check_each-Reversible :
      (settings : List Setting) (vars : Bytes → Option Bytes)
      → (check_each u settings vars ≡ ok tt) ↔ Reversible settings vars
  unfolding check_each
  check_each-Reversible [] vars =
      let o = check_options-none (or_empty (vars (codes "binlog_row_value_options"))) in
      ((λ h. (tt, o.0 h)), λ h. o.1 h.1)
  check_each-Reversible (s ∷ settings) vars =
      elim (Result-cases (check_setting u s (vars s.name))) [
        | inl (x, e) ↦
            rw (e, check_each)
              (
                (λ h.
                    let r = (check_each-Reversible settings vars).0 h in
                    (((check_setting-Reported s (vars s.name)).0 e, r.0), r.1)),
                λ h. (check_each-Reversible settings vars).1 (h.0.1, h.1),
              )
        | inr (x, e) ↦
            rw (e, check_each)
              (
                (λ h. absurd (no_err h)),
                λ h. absurd (no_err (sym e ∙ (check_setting-Reported s (vars s.name)).1 h.0.0)),
              )
      ]

  -- The settings under which each change is logged whole, and values of JSON columns are not logged as
  -- differences.
  abbrev pub LogsWholeRows : (Bytes → Option Bytes) → Type 0
  LogsWholeRows vars =
      Reported (codes "ROW") (vars (codes "binlog_format"))
      × Reported (codes "FULL") (vars (codes "binlog_row_image"))
      × Reported (codes "FULL") (vars (codes "binlog_row_metadata"))
      × ¬ (
          IsPart (codes "PARTIAL_JSON")
            (u.to_upper (or_empty (vars (codes "binlog_row_value_options")))))

  -- A server is admitted exactly when it reports binlog_format as ROW, and binlog_row_image and
  -- binlog_row_metadata as FULL, in letters of either case, and the upper case of its
  -- binlog_row_value_options has PARTIAL_JSON nowhere.
  pub check_settings-iff-LogsWholeRows :
      (vars : Bytes → Option Bytes) → (check_settings u vars ≡ ok tt) ↔ LogsWholeRows vars
  unfolding check_settings
  check_settings-iff-LogsWholeRows vars =
      let e = check_each-Reversible required_settings vars in
      (
        (λ h.
            let ((format, (image, (metadata, done))), none_partial) = e.0 h in
            (format, image, metadata, none_partial)),
        λ h. e.1 ((h.0, (h.1, (h.2, tt))), h.3),
      )
