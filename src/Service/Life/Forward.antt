-- ===== src/Service/Life/Forward.antt =====
-- What the life of a file can be: it goes forward, and comes to an end.
use storm_tape.Prelude.{
  ℕ, ◌+◌, ◌≤◌, ◌<◌, ◌≡◌, refl, sym, ap, subst, ◌∙◌, ◌⊎◌, inl, inr, true, false, if◌then◌else◌, eqb,
  arith,
}
use storm_tape.Model.{State, submitted, started, cancelled, failed, completed, is_final}
use storm_tape.Database.Session.{FileEntity}
use storm_tape.Database.Sql.{is_pending}
use storm_tape.Database.Rows.{IsRow, IsTimed}
use storm_tape.Service.Life.{Step, starts, ends, cancels, Life, here, next}

-- SUBMITTED, then STARTED, then a final state.
abbrev pub rank : State → ℕ
rank submitted = 0
rank started = 1
rank _ = 2

-- From a row to what becomes of it.
pub record IsForward (f g : FileEntity) : Type 0 where
  pub stage_id : g.stage_id ≡ f.stage_id
  pub logical_path : g.logical_path ≡ f.logical_path
  pub physical_path : g.physical_path ≡ f.physical_path
  pub forward : rank f.state ≤ rank g.state
  pub start : (f.state ≡ submitted) ⊎ (g.started_at ≡ f.started_at)
  pub end : (is_final f.state ≡ false) ⊎ ((g.state ≡ f.state) ⊎ (g.state ≡ cancelled))

-- The times after a row ends.
finish-IsTimed :
    (s s' : State) (a b tp : ℕ)
    → 0 < tp
    → is_final s' ≡ true
    → IsTimed s a b
    → IsTimed s' (if eqb a 0 then tp else a) tp
finish-IsTimed s submitted a b tp h e r = absurd (ground arith)
finish-IsTimed s started a b tp h e r = absurd (ground arith)
finish-IsTimed s cancelled a b tp h e r = ground arith
finish-IsTimed s failed a b tp h e r = ground arith
finish-IsTimed s completed a b tp h e r = ground arith

Step-IsRow : {f g : FileEntity} → Step f g → IsRow f → IsRow g
Step-IsRow {f} (starts tp h e q) r =
    let timed : IsTimed submitted f.started_at f.finished_at =
      subst (λ s. IsTimed s f.started_at f.finished_at) e r in
    subst IsRow (sym q) (h, timed.1)
Step-IsRow {f} (ends s tp h final p q) r =
    subst IsRow (sym q) (finish-IsTimed f.state s f.started_at f.finished_at tp h final r)
Step-IsRow {f} (cancels tp h q) r =
    subst IsRow (sym q) (finish-IsTimed f.state cancelled f.started_at f.finished_at tp h refl r)

rank-le : (s : State) → rank s ≤ 2
rank-le submitted = omega arith
rank-le started = omega arith
rank-le cancelled = omega arith
rank-le failed = omega arith
rank-le completed = omega arith

rank-final : (s : State) → is_final s ≡ true → rank s ≡ 2
rank-final submitted e = absurd (ground arith)
rank-final started e = absurd (ground arith)
rank-final cancelled e = refl
rank-final failed e = refl
rank-final completed e = refl

pending-eq-not_final : (s : State) → is_pending s ≡ true → is_final s ≡ false
pending-eq-not_final submitted e = refl
pending-eq-not_final started e = refl
pending-eq-not_final cancelled e = absurd (ground arith)
pending-eq-not_final failed e = absurd (ground arith)
pending-eq-not_final completed e = absurd (ground arith)

-- The start of a row that ends, if the row has left SUBMITTED.
finish_start :
    (s : State) (a b tp : ℕ) → IsTimed s a b → (s ≡ submitted) ⊎ ((if eqb a 0 then tp else a) ≡ a)
finish_start submitted a b tp r = inl refl
finish_start started a b tp r = inr (ground arith)
finish_start cancelled a b tp r = inr (ground arith)
finish_start failed a b tp r = inr (ground arith)
finish_start completed a b tp r = inr (ground arith)

Step-IsForward : {f g : FileEntity} → Step f g → IsRow f → IsForward f g
Step-IsForward {f} (starts tp h e q) r = subst (IsForward f) (sym q) (record {
  stage_id = refl;
  logical_path = refl;
  physical_path = refl;
  forward = rw e (omega arith);
  start = inl e;
  end = inl (ap is_final e);
})
Step-IsForward {f} (ends s tp h final p q) r = subst (IsForward f) (sym q) (record {
  stage_id = refl;
  logical_path = refl;
  physical_path = refl;
  forward = omega (arith, rank-le f.state, rank-final s final);
  start = finish_start f.state f.started_at f.finished_at tp r;
  end = inl (pending-eq-not_final f.state p);
})
Step-IsForward {f} (cancels tp h q) r = subst (IsForward f) (sym q) (record {
  stage_id = refl;
  logical_path = refl;
  physical_path = refl;
  forward = rank-le f.state;
  start = finish_start f.state f.started_at f.finished_at tp r;
  end = inr (inr refl);
})

end_trans :
    (s t u : State)
    → (is_final s ≡ false) ⊎ ((t ≡ s) ⊎ (t ≡ cancelled))
    → (is_final t ≡ false) ⊎ ((u ≡ t) ⊎ (u ≡ cancelled))
    → (is_final s ≡ false) ⊎ ((u ≡ s) ⊎ (u ≡ cancelled))
end_trans s t u (inl n) k = inl n
end_trans s t u (inr h) (inr (inr c)) = inr (inr c)
end_trans s t u (inr (inl e)) (inl n) = inl (ap is_final (sym e) ∙ n)
end_trans s t u (inr (inl e)) (inr (inl e')) = inr (inl (e' ∙ e))
end_trans s t u (inr (inr c)) (inl n) = absurd (ground arith)
end_trans s t u (inr (inr c)) (inr (inl e')) = inr (inr (e' ∙ c))

start_trans :
    (s t : State) (a b c : ℕ)
    → rank s ≤ rank t
    → (s ≡ submitted) ⊎ (b ≡ a)
    → (t ≡ submitted) ⊎ (c ≡ b)
    → (s ≡ submitted) ⊎ (c ≡ a)
start_trans s t a b c h (inl e) k = inl e
start_trans s t a b c h (inr e) (inr e') = inr (e' ∙ e)
start_trans submitted t a b c h (inr e) (inl e') = inl refl
start_trans started t a b c h (inr e) (inl e') = absurd (ground arith)
start_trans cancelled t a b c h (inr e) (inl e') = absurd (ground arith)
start_trans failed t a b c h (inr e) (inl e') = absurd (ground arith)
start_trans completed t a b c h (inr e) (inl e') = absurd (ground arith)

IsForward-refl : (f : FileEntity) → IsForward f f
IsForward-refl f = record {
  stage_id = refl;
  logical_path = refl;
  physical_path = refl;
  forward = omega arith;
  start = inr refl;
  end = inr (inl refl);
}

IsForward-trans : {f g h : FileEntity} → IsForward f g → IsForward g h → IsForward f h
IsForward-trans {f} {g} {h} v w = record {
  stage_id = w.stage_id ∙ v.stage_id;
  logical_path = w.logical_path ∙ v.logical_path;
  physical_path = w.physical_path ∙ v.physical_path;
  forward = omega (arith, v.forward, w.forward);
  start =
      start_trans f.state g.state f.started_at g.started_at h.started_at v.forward v.start w.start;
  end = end_trans f.state g.state h.state v.end w.end;
}

pub Life-IsForward : {f g : FileEntity} → Life f g → IsRow f → IsForward f g × IsRow g
Life-IsForward {f} here r = (IsForward-refl f, r)
Life-IsForward (next l st) r =
    let (v, r') = Life-IsForward l r in (IsForward-trans v (Step-IsForward st r'), Step-IsRow st r')

-- The steps of a life that are no cancellation.
pub moves : {f g : FileEntity} → Life f g → ℕ
moves here = 0
moves (next l (starts tp h e q)) = moves l + 1
moves (next l (ends s tp h final p q)) = moves l + 1
moves (next l (cancels tp h q)) = moves l
