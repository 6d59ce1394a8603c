-- ===== src/Search/Parser/Total.antt =====
-- What every function of `Parser` gives, given the fuel it needs: a node or an error, where the
-- errors lie, and how many lexemes are left.
use sci_etl_core.Prelude.{
  ℕ, zero, suc, ◌+◌, ◌*◌, ◌%◌, ◌≤◌, ◌≡◌, refl, subst, Text, true, false, ◌||◌, some, ltb, ◌==◌,
  arith,
}
use sci_etl_core.Search.Lexeme.{ok}
use sci_etl_core.Search.Parser.{
  Parser, is_end, is_or, is_and, is_open, is_close, starts_operand, advance, skip_nots, disjunction,
  more_disjuncts, conjunction, more_conjuncts, negation, primary, group, size, max_group_depth,
}
use sci_etl_core.Search.Parser.Placed.{
  HasNode, IsReady, Returns, Moved, Skipped, ReadNode, ReadNodes, SkippedNots, bind-Returns,
  test-Returns, weaken-Returns, node-Returns, advance-Moved, not_end, skip_nots-Skipped,
  open-StandsAt, negated-IsValid,
}

module _ (text : Text) where
  -- What the functions give on `f` units of fuel, enough for the lexemes that are left.
  record Calls (f : ℕ) : Type 0 where
    of_disjunction :
        (depth : ℕ)
        → (p : Parser) → IsReady text p
        → 8 * size p + 5 ≤ f
        → Returns text (ReadNode text p) (disjunction f depth p)
    of_disjuncts :
        (depth : ℕ)
        → (p : Parser) → IsReady text p
        → 8 * size p + 1 ≤ f
        → Returns text (ReadNodes text p) (more_disjuncts f depth p)
    of_conjunction :
        (depth : ℕ)
        → (p : Parser) → IsReady text p
        → 8 * size p + 4 ≤ f
        → Returns text (ReadNode text p) (conjunction f depth p)
    of_conjuncts :
        (depth : ℕ)
        → (p : Parser) → IsReady text p
        → 8 * size p + 4 ≤ f
        → Returns text (ReadNodes text p) (more_conjuncts f depth p)
    of_negation :
        (depth : ℕ)
        → (p : Parser) → IsReady text p
        → 8 * size p + 3 ≤ f
        → Returns text (ReadNode text p) (negation f depth p)
    of_primary :
        (depth : ℕ)
        → (p : Parser) → IsReady text p
        → 8 * size p + 2 ≤ f
        → Returns text (ReadNode text p) (primary f depth p)
    of_group :
        (depth : ℕ)
        → (p : Parser) → IsReady text p
        → is_open p.current.kind ≡ true
        → 8 * size p + 1 ≤ f
        → Returns text (ReadNode text p) (group f depth p)

  module _ (f : ℕ) (c : Calls f) (depth : ℕ) (p : Parser) (h : IsReady text p) where
    disjunction_step :
        8 * size p + 5 ≤ suc f → Returns text (ReadNode text p) (disjunction (suc f) depth p)
    unfolding disjunction
    disjunction_step d =
        bind-Returns text (ReadNode text p) (ReadNode text p) (conjunction f depth p) _
          (c.of_conjunction depth p h (omega (arith, d)))
          (λ a r.
            bind-Returns text (ReadNodes text a.1) (ReadNode text p) (more_disjuncts f depth a.1) _
              (c.of_disjuncts depth a.1 r.ready (omega (arith, d, r.less)))
              (λ b s. record {
                valid = (tt, (r.valid, s.valid));
                ready = s.ready;
                less = omega (arith, r.less, s.less);
              }))

    conjunction_step :
        8 * size p + 4 ≤ suc f → Returns text (ReadNode text p) (conjunction (suc f) depth p)
    unfolding conjunction
    conjunction_step d =
        bind-Returns text (ReadNode text p) (ReadNode text p) (negation f depth p) _
          (c.of_negation depth p h (omega (arith, d)))
          (λ a r.
            bind-Returns text (ReadNodes text a.1) (ReadNode text p) (more_conjuncts f depth a.1) _
              (c.of_conjuncts depth a.1 r.ready (omega (arith, d, r.less)))
              (λ b s. record {
                valid = (tt, (r.valid, s.valid));
                ready = s.ready;
                less = omega (arith, r.less, s.less);
              }))

    more_disjuncts_step :
        8 * size p + 1 ≤ suc f → Returns text (ReadNodes text p) (more_disjuncts (suc f) depth p)
    unfolding more_disjuncts is_or
    more_disjuncts_step d =
        test-Returns text (ReadNodes text p) (is_or p.current.kind) _ _
          (λ e.
            bind-Returns text (Moved text p) (ReadNodes text p) (advance p) _
              (advance-Moved text p h (not_end text is_or refl p.current.kind e))
              (λ q m.
                bind-Returns text (ReadNode text q) (ReadNodes text p) (conjunction f depth q) _
                  (c.of_conjunction depth q m.ready (omega (arith, d, m.less)))
                  (λ a r.
                    bind-Returns text (ReadNodes text a.1) (ReadNodes text p)
                      (more_disjuncts f depth a.1) _
                      (c.of_disjuncts depth a.1 r.ready (omega (arith, d, m.less, r.less)))
                      (λ b s. record {
                        valid = (r.valid, s.valid);
                        ready = s.ready;
                        less = omega (arith, m.less, r.less, s.less);
                      }))))
          (λ e. record { valid = tt; ready = h; less = omega arith })

    -- The optional `AND` before a conjunct.
    skip_and :
        Returns text
          (Skipped text p)
          (elim (is_and p.current.kind) [ true ↦ advance p | false ↦ ok p ])
    unfolding is_and
    skip_and =
        test-Returns text (Skipped text p) (is_and p.current.kind) _ _
          (λ e.
            weaken-Returns text (Moved text p) (Skipped text p) (advance p)
              (λ q m. record { ready = m.ready; less = omega (arith, m.less) })
              (advance-Moved text p h (not_end text is_and refl p.current.kind e)))
          (λ e. record { ready = h; less = omega arith })

    more_conjuncts_step :
        8 * size p + 4 ≤ suc f → Returns text (ReadNodes text p) (more_conjuncts (suc f) depth p)
    unfolding more_conjuncts
    more_conjuncts_step d =
        test-Returns text (ReadNodes text p)
          (is_and p.current.kind || starts_operand p.current.kind) _ _
          (λ e. bind-Returns text (Skipped text p) (ReadNodes text p) _ _ skip_and (λ q m.
            bind-Returns text (ReadNode text q) (ReadNodes text p) (negation f depth q) _
              (c.of_negation depth q m.ready (omega (arith, d, m.less)))
              (λ a r.
                bind-Returns text (ReadNodes text a.1) (ReadNodes text p)
                  (more_conjuncts f depth a.1) _
                  (c.of_conjuncts depth a.1 r.ready (omega (arith, d, m.less, r.less)))
                  (λ b s. record {
                    valid = (r.valid, s.valid);
                    ready = s.ready;
                    less = omega (arith, m.less, r.less, s.less);
                  }))))
          (λ e. record { valid = tt; ready = h; less = omega arith })

    negation_step :
        8 * size p + 3 ≤ suc f → Returns text (ReadNode text p) (negation (suc f) depth p)
    unfolding negation
    negation_step d =
        bind-Returns text (SkippedNots text p) (ReadNode text p) (skip_nots f 0 p) _
          (skip_nots-Skipped text f 0 p h (omega (arith, d)))
          (λ a m.
            bind-Returns text (ReadNode text a.1) (ReadNode text p) (primary f depth a.1) _
              (c.of_primary depth a.1 m.ready (omega (arith, d, m.less)))
              (λ b r. record {
                valid = negated-IsValid text (a.0 % 2 == 1) b.0 r.valid;
                ready = r.ready;
                less = omega (arith, m.less, r.less);
              }))

    primary_step : 8 * size p + 2 ≤ suc f → Returns text (ReadNode text p) (primary (suc f) depth p)
    unfolding primary
    primary_step d =
        node-Returns text (ReadNode text p) p.current.node _ _
          (λ n e.
            let held : HasNode p.current.kind (some n) =
              subst (HasNode p.current.kind) e h.current.valid in
            bind-Returns text (Moved text p) (ReadNode text p) (advance p) _
              (advance-Moved text p h held.0)
              (λ q m. record { valid = held.1; ready = m.ready; less = m.less }))
          (λ e.
            test-Returns text (ReadNode text p) (is_open p.current.kind) _ _
              (λ o. c.of_group (suc depth) p h o (omega (arith, d)))
              (λ o.
                test-Returns text (ReadNode text p) (is_end p.current.kind) _ _
                  (λ z. h.previous.stands) (λ z. h.current.stands)))

    group_step :
        is_open p.current.kind ≡ true
        → 8 * size p + 1 ≤ suc f
        → Returns text (ReadNode text p) (group (suc f) depth p)
    unfolding group is_open is_close
    group_step o d =
        let here = open-StandsAt text p h o in
        test-Returns text (ReadNode text p) (ltb max_group_depth depth) _ _ (λ e. here)
          (λ e.
            bind-Returns text (Moved text p) (ReadNode text p) (advance p) _
              (advance-Moved text p h (not_end text is_open refl p.current.kind o))
              (λ q m.
                bind-Returns text (ReadNode text q) (ReadNode text p) (disjunction f depth q) _
                  (c.of_disjunction depth q m.ready (omega (arith, d, m.less)))
                  (λ a r.
                    test-Returns text (ReadNode text p) (is_close a.1.current.kind) _ _
                      (λ z.
                        bind-Returns text (Moved text a.1) (ReadNode text p) (advance a.1) _
                          (advance-Moved text a.1 r.ready
                            (not_end text is_close refl a.1.current.kind z))
                          (λ b s. record {
                            valid = r.valid;
                            ready = s.ready;
                            less = omega (arith, m.less, r.less, s.less);
                          }))
                      (λ z. here))))

  calls : (f : ℕ) → Calls f
  calls zero = record {
    of_disjunction = λ depth p h d. absurd (omega (arith, d));
    of_disjuncts = λ depth p h d. absurd (omega (arith, d));
    of_conjunction = λ depth p h d. absurd (omega (arith, d));
    of_conjuncts = λ depth p h d. absurd (omega (arith, d));
    of_negation = λ depth p h d. absurd (omega (arith, d));
    of_primary = λ depth p h d. absurd (omega (arith, d));
    of_group = λ depth p h o d. absurd (omega (arith, d));
  }
  calls (suc f) = record {
    of_disjunction = disjunction_step f (calls f);
    of_disjuncts = more_disjuncts_step f (calls f);
    of_conjunction = conjunction_step f (calls f);
    of_conjuncts = more_conjuncts_step f (calls f);
    of_negation = negation_step f (calls f);
    of_primary = primary_step f (calls f);
    of_group = group_step f (calls f);
  }
