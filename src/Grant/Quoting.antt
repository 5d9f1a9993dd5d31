-- ===== src/Grant/Quoting.antt =====
-- `split_fields` undoes `quote_field`, as far as it does.
use mathlib.Core.List.{append-nil, append_assoc}
use bitbang_cli.Prelude.{
  Text, ℕ, List, ◌++◌, ◌≡◌, ◌==◌, ◌∷◌, true, [], refl, arith, ◌∙◌, ap, false, Bool, Bool-cases, ◌⊎◌,
  ◌||◌, inl, subst, ==_iff, inr, All, codes, map, ok,
}
use bitbang_cli.Grant.Fields.{
  split_run, contains, Split, split_step, is_quote, quote_field, is_blank, quote_command, join,
  split_fields, split_end,
}

split_run-append : (s t : Text) (st : Split) → split_run (s ++ t) st ≡ split_run t (split_run s st)
unfolding split_run
split_run-append [] t st = refl
split_run-append (r ∷ s) t st = split_run-append s t (split_step r st)

-- A stretch of characters that the splitter takes as they are is added to the token.
run_taken :
    (s : Text) (q : ℕ) (out : List Text) (cur : Text)
    → ((r : ℕ) (cur : Text)
        → contains (λ x. x == r) s ≡ true
        → split_step r (record { out = out; cur = cur; quote = q; is_open = true })
          ≡ record { out = out; cur = cur ++ (r ∷ []); quote = q; is_open = true })
    → split_run s (record { out = out; cur = cur; quote = q; is_open = true })
      ≡ record { out = out; cur = cur ++ s; quote = q; is_open = true }
unfolding split_run contains
run_taken [] q out cur h = ground (arith, append-nil cur)
run_taken (r ∷ s) q out cur h = rw (h r cur (ground arith)) (
    run_taken s q out (cur ++ (r ∷ [])) (λ x c e. h x c (ground (arith, e)))
    ∙ ap (λ t. record { out = out; cur = t; quote = q; is_open = true })
        (append_assoc cur (r ∷ []) s))

contains-false :
    (test : ℕ → Bool) (s : Text) (r : ℕ)
    → contains test s ≡ false
    → contains (λ x. x == r) s ≡ true
    → test r ≡ false
unfolding contains
contains-false test [] r h e = cc
contains-false test (x ∷ s) r h e = elim (Bool-cases (x == r)) [
  | inl same ↦
      let here : test x ≡ false = ground arith in
      subst (λ y. test y ≡ false) ((==_iff x r).0 same) here
  | inr other ↦ contains-false test s r (ground arith) (ground arith)
]

abbrev pub plain_char : ℕ → Bool
plain_char r = is_blank r || is_quote r

step_plain :
    (r : ℕ) (out : List Text) (cur : Text) (o : Bool)
    → plain_char r ≡ false
    → split_step r (record { out = out; cur = cur; quote = 0; is_open = o })
      ≡ record { out = out; cur = cur ++ (r ∷ []); quote = 0; is_open = true }
unfolding split_step
step_plain r out cur o h = ground arith

step_inside :
    (q r : ℕ) (out : List Text) (cur : Text)
    → is_quote q ≡ true
    → (r == q) ≡ false
    → split_step r (record { out = out; cur = cur; quote = q; is_open = true })
      ≡ record { out = out; cur = cur ++ (r ∷ []); quote = q; is_open = true }
unfolding split_step
step_inside q r out cur h e = ground arith

step_open :
    (q : ℕ) (out : List Text)
    → is_quote q ≡ true
    → split_step q (record { out = out; cur = []; quote = 0; is_open = false })
      ≡ record { out = out; cur = []; quote = q; is_open = true }
unfolding split_step
step_open q out h = ground arith

step_close :
    (q : ℕ) (out : List Text) (cur : Text)
    → is_quote q ≡ true
    → split_step q (record { out = out; cur = cur; quote = q; is_open = true })
      ≡ record { out = out; cur = cur; quote = 0; is_open = true }
unfolding split_step
step_close q out cur h = ground arith

run_quoted :
    (q : ℕ) (s : Text) (out : List Text)
    → is_quote q ≡ true
    → contains (λ r. r == q) s ≡ false
    → split_run (q ∷ (s ++ (q ∷ []))) (record { out = out; cur = []; quote = 0; is_open = false })
      ≡ record { out = out; cur = s; quote = 0; is_open = true }
unfolding split_run
run_quoted q s out h free =
    ap (split_run (s ++ (q ∷ []))) (step_open q out h)
    ∙ split_run-append s (q ∷ []) _
    ∙ ap (split_run (q ∷ [])) (
        run_taken s q out []
          (λ r c e. step_inside q r out c h (contains-false (λ x. x == q) s r free e)))
    ∙ step_close q out s h

-- The token has no double quote or no single quote.
abbrev pub Quotable : Text → Type 0
Quotable s = (contains (λ r. r == b'"') s ≡ false) ⊎ (contains (λ r. r == b'\'') s ≡ false)

run_quote_field :
    (s : Text) (out : List Text)
    → Quotable s
    → split_run (quote_field s) (record { out = out; cur = []; quote = 0; is_open = false })
      ≡ record { out = out; cur = s; quote = 0; is_open = true }
unfolding quote_field split_run
run_quote_field [] out h = unfold split_step in refl
run_quote_field (r ∷ s) out h = elim (Bool-cases (contains plain_test (r ∷ s))) [
  | inr plain ↦
      rw (plain, quote_field)
        (rw
          (step_plain r out [] false
            (contains-false plain_test (r ∷ s) r plain (unfold contains in ground arith)))
          (run_taken s 0 out (r ∷ []) (λ x c e.
            step_plain x out c true
              (contains-false plain_test (r ∷ s) x plain (unfold contains in ground (arith, e))))))
  | inl special ↦ elim (Bool-cases (contains (λ x. x == b'"') (r ∷ s))) [
    | inr free ↦ rw (special, free, quote_field) (run_quoted b'"' (r ∷ s) out refl free)
    | inl double ↦
        rw (special, double, quote_field)
          (run_quoted b'\'' (r ∷ s) out refl (ground (arith, h, double)))
  ]
]
  where
    plain_test : ℕ → Bool
    plain_test x = is_blank x || is_quote x

end_join :
    (argv : List Text) (out : List Text)
    → All Quotable argv
    → split_end (
        split_run
          (join (codes " ") (map quote_field argv))
          (record { out = out; cur = []; quote = 0; is_open = false }))
      ≡ ok (out ++ argv)
unfolding join split_end split_run split_step
end_join [] out h = unfold split_run in ground (arith, append-nil out)
end_join (t ∷ []) out h = rw (run_quote_field t out h.0) refl
end_join (t ∷ (u ∷ us)) out h =
    ap split_end (
      split_run-append (quote_field t) (codes " " ++ join (codes " ") (map quote_field (u ∷ us))) _
      ∙ ap (split_run (codes " " ++ join (codes " ") (map quote_field (u ∷ us))))
          (run_quote_field t out h.0))
    ∙ unfold split_run split_step in
      end_join (u ∷ us) (out ++ (t ∷ [])) h.1 ∙ ap ok (append_assoc out (t ∷ []) (u ∷ us))

-- Splitting gives back every token that was quoted, when the tokens are quoted one by one and joined by
-- blanks, and none of them holds both kinds of quote.
pub split_fields-quote_fields :
    (argv : List Text)
    → All Quotable argv
    → split_fields (join (codes " ") (map quote_field argv)) ≡ ok argv
unfolding split_fields
split_fields-quote_fields argv h = end_join argv [] h

-- A command survives the two splits that reading it back from a line makes, when no argument holds both
-- kinds of quote and neither does the line of the quoted arguments: the line that quote_command writes
-- splits into one field, and that field into the arguments.
pub split_fields-quote_command :
    (argv : List Text)
    → All Quotable argv
    → Quotable (join (codes " ") (map quote_field argv))
    → (field : Text) × (split_fields (quote_command argv) ≡ ok (field ∷ []))
      × (split_fields field ≡ ok argv)
unfolding quote_command
split_fields-quote_command argv h q =
    let line : Text = join (codes " ") (map quote_field argv) in
    (
      line,
      unfold split_fields in rw (run_quote_field line [] q) (unfold split_end in refl),
      split_fields-quote_fields argv h,
    )
