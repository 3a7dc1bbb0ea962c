-- ===== src/Definition/Exact.antt =====
-- What a definition must satisfy to be accepted, over app/services/script_validator.py.
use cat_backend.Common.{
  ℕ, ◌≡◌, refl, sym, ap, ◌∙◌, String, not, List, [], ◌∷◌, ◌++◌, map, Option, some, ◌↔◌, inl, inr,
  is_some, is_empty, is_empty-map, subst, All, Member, Bool-cases, Option-cases,
}
use cat_backend.Common.Eq.{Text-Eq, elem, elem→Member, not-elem→not-Member}
use cat_backend.Common.Dict.{lookup, lookup-elem}
use cat_backend.Common.Report.{Decides, Decides-append, Decides-flat_map}
use cat_backend.Common.Words.{Text}
use cat_backend.Definition.Contract.{ScriptContract, ExpectedReplyEntry}
use cat_backend.Definition.Limits.{
  LimitViolation, ScriptLimits, validate_limits, folded, expected_replies_normalized, conflict_of,
  validate_conflicts, conflicts_in_schema, validate_contract_structure, checked, validate_script,
  Outcome, encoded_size,
}
use cat_backend.Definition.Fitting.{IsWithin, limits_decided}

module _ (casefold : Text → Text) where
  -- No prohibited response is an expected reply, up to white space around it and case.
  abbrev pub IsConsistent : ScriptContract → Type 0
  IsConsistent c =
      All
        (λ p.
          ¬ Member (folded casefold p)
            (map (λ (e : ExpectedReplyEntry). folded casefold e.debtor_reply) c.expected_replies))
        c.prohibited_responses

  keys_of :
      (es : List ExpectedReplyEntry)
      → map (λ p. p.0) (expected_replies_normalized casefold es)
        ≡ map (λ (e : ExpectedReplyEntry). folded casefold e.debtor_reply) es
  keys_of [] = refl
  keys_of (e ∷ es) = ap (λ ks. folded casefold e.debtor_reply ∷ ks) (keys_of es)

  conflict_decides :
      (es : List ExpectedReplyEntry) (p : Text)
      → Decides (conflict_of casefold (expected_replies_normalized casefold es) p) (
          ¬ Member
            (folded casefold p)
            (map (λ (e : ExpectedReplyEntry). folded casefold e.debtor_reply) es))
  conflict_decides es p =
      let replies = expected_replies_normalized casefold es in
      let known : is_some (lookup (folded casefold p) replies)
          ≡ elem (folded casefold p)
              (map (λ (e : ExpectedReplyEntry). folded casefold e.debtor_reply) es) =
        lookup-elem (folded casefold p) replies ∙ ap (elem (folded casefold p)) (keys_of es) in
      elim (Option-cases (lookup (folded casefold p) replies)) [
        | inl missing ↦
            rw (conflict_of, missing)
              (λ h. not-elem→not-Member _ _ (ap not (sym (rw missing at known))), λ h. refl)
        | inr (w, found) ↦
            rw (conflict_of, found)
              (λ h. absurd (cc h), λ h. absurd (h (elem→Member _ _ (sym (rw found at known)))))
      ]

  conflicts_decided :
      (c : ScriptContract) → Decides (validate_conflicts casefold c) (IsConsistent c)
  unfolding validate_conflicts
  conflicts_decided c =
      Decides-flat_map _ _ (conflict_decides c.expected_replies) c.prohibited_responses

  violations_decided :
      (c : ScriptContract) (size : ℕ) (limits : ScriptLimits)
      → Decides
          (map (λ p. LimitViolation.prohibited_expected p.0 p.1) (validate_conflicts casefold c)
            ++ validate_limits c size limits)
          (IsConsistent c × IsWithin limits size c)
  violations_decided c size limits =
      Decides-append _ _
        (
          λ h. (conflicts_decided c).0 (sym (is_empty-map _ (validate_conflicts casefold c)) ∙ h),
          λ h. is_empty-map _ (validate_conflicts casefold c) ∙ (conflicts_decided c).1 h,
        )
        (limits_decided c size limits)

  -- What `validate_script` asks of a contract that came as a text of `size` bytes.
  abbrev pub IsAcceptable : ScriptLimits → ℕ → ScriptContract → Type 0
  IsAcceptable limits size c = IsConsistent c × IsWithin limits size c

  checked_iff :
      (c d : ScriptContract) (raw : Text) (limits : ScriptLimits)
      → (checked casefold c raw limits ≡ Outcome.ok d)
        ↔ ((c ≡ d) × IsAcceptable limits (encoded_size raw) c)
  checked_iff c d raw limits =
      let found = violations_decided c (encoded_size raw) limits in
      elim (Bool-cases (
        is_empty (
          map (λ p. LimitViolation.prohibited_expected p.0 p.1) (validate_conflicts casefold c)
          ++ validate_limits c (encoded_size raw) limits))) [
            | inl none_found ↦
                rw (checked, none_found) (λ h. (cc h, found.0 none_found), λ h. ap Outcome.ok h.0)
            | inr some_found ↦
                rw (checked, some_found) (λ h. absurd (cc h), λ h. absurd (cc (found.1 h.1)))
          ]

  module _ {Data : Type 0} (parse : String → Text → Option Data)
      (fields : Data → Option ScriptContract) where
    structure_checked :
        (raw : Text) (format : String) (limits : ScriptLimits) (entries : Data) (c : ScriptContract)
        → parse format raw ≡ some entries
        → fields entries ≡ some c
        → validate_script casefold parse fields raw format limits ≡ checked casefold c raw limits
    unfolding validate_script
    structure_checked raw format limits entries c p f =
        elim (Bool-cases (conflicts_in_schema casefold c)) [
          | inl conflict ↦ rw (validate_script, p, validate_contract_structure, f, conflict) refl
          | inr fine ↦ rw (validate_script, p, validate_contract_structure, f, fine) refl
        ]

    -- `validate_script` accepts exactly the texts that parse to valid fields with no conflict and
    -- within every limit, and returns their contract.
    pub validate_script_iff :
        (raw : Text) (format : String) (limits : ScriptLimits) (d : ScriptContract)
        → (validate_script casefold parse fields raw format limits ≡ Outcome.ok d) ↔ (
            (entries : Data) × (parse format raw ≡ some entries)
            × (fields entries ≡ some d)
            × IsAcceptable limits (encoded_size raw) d)
    unfolding validate_script
    validate_script_iff raw format limits d = (
      λ h. elim (Option-cases (parse format raw)) [
        | inl unparsed ↦ absurd (cc (rw (validate_script, unparsed) at h))
        | inr (entries, p) ↦ elim (Option-cases (fields entries)) [
          | inl wrong ↦
              absurd (cc (rw (validate_script, p, validate_contract_structure, wrong) at h))
          | inr (c, f) ↦
              let (same, good) =
                (checked_iff c d raw limits).0
                  (sym (structure_checked raw format limits entries c p f) ∙ h) in
              (
                entries,
                p,
                f ∙ ap some same,
                subst (IsAcceptable limits (encoded_size raw)) same good,
              )
        ]
      ],
      λ (entries, p, f, good).
          structure_checked raw format limits entries d p f
          ∙ (checked_iff d d raw limits).1 (refl, good),
    )
