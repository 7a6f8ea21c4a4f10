-- ===== src/Stage/Update.antt =====
-- update_timestamps against the comment above it.
use storm_tape.Prelude.{
  ◌≡◌, ◌≢◌, sym, ap, subst, ◌∙◌, ◌⊎◌, inl, inr, Bool, true, some, [], Bool-cases,
}
use storm_tape.Model.{StageRequest}
use storm_tape.Algorithm.Sorting.{IsSorted}
use storm_tape.Stage.{by_state, update_started, update_completed, update_timestamps}
use storm_tape.Stage.Starting.{IsStart, update_started_lem}
use storm_tape.Stage.Ending.{IsEnd, update_completed_lem}

pub record IsUpdate (r s : StageRequest) : Type 0 where
  pub files : s.files ≡ r.files
  pub created : s.created_at ≡ r.created_at
  pub start : IsStart r.files r.started_at s.started_at
  pub end : IsEnd r.files r.completed_at s.completed_at

update_timestamps-steps :
    (r r' r'' : StageRequest) (u v : Bool)
    → update_started r ≡ some (r', u)
    → update_completed (some (r', u)) ≡ some (r'', v)
    → update_timestamps r ≡ some (r'', v)
unfolding update_timestamps
update_timestamps-steps r r' r'' u v e e' = ap update_completed e ∙ e'

-- For sorted files, of which there is one, update_timestamps returns. The files and the creation time
-- stay. A start that is not set becomes the least start of the files that have left SUBMITTED, and
-- stays 0 if there are none; an end that is not set becomes the greatest end of the files if all are
-- final, and otherwise stays 0. A result of `false` means that nothing has changed.
pub update_timestamps-IsUpdate :
    (r : StageRequest)
    → IsSorted by_state r.files
    → r.files ≢ []
    → (s : StageRequest) × (u : Bool) × (update_timestamps r ≡ some (s, u))
      × IsUpdate r s
      × ((u ≡ true) ⊎ (s ≡ r))
update_timestamps-IsUpdate r s n =
    let (r', u, e, (files, created, completed, start, same)) = update_started_lem r s n in
    let (r'', v, e', (files', created', started', end, same')) =
      update_completed_lem r' u (subst (IsSorted by_state) (sym files) s)
        (λ h. n (sym files ∙ h)) in
    (
      r'',
      v,
      update_timestamps-steps r r' r'' u v e e',
      record {
        files = files' ∙ files;
        created = created' ∙ created;
        start = subst (IsStart r.files r.started_at) (sym started') start;
        end =
            subst (λ c. IsEnd r.files c r''.completed_at) completed
              (subst (λ fs. IsEnd fs r'.completed_at r''.completed_at) files end);
      },
      elim (Bool-cases v) [ inl h ↦ inl h | inr h ↦ inr ((same' h).0 ∙ same (same' h).1) ],
    )
