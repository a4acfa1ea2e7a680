-- ===== src/Evals/Main/Checks.antt =====
-- What the checks before a run guarantee.
use mathlib.Core.Path.{subst}
use ticket_triage.Base.{ap, ◌≡◌, ◌↔◌, refl, true, false, Option, none, some, arith}
use ticket_triage.Text.{Text, text_eq}
use ticket_triage.Evals.Gate.{Baseline}
use ticket_triage.Evals.Main.{
  File, os_error, malformed, content, Read, found, config_error, raised, ◌>>=◌, Invocation,
  load_dataset, load_baseline, read_fixtures, require_provider, check_sha, check_provider,
  read_baseline, check_baseline, has_sha, Prepared, prepare,
}

-- A chain that succeeds passed its first step.
bind-found :
    {A B : Type 0} (P : Type 0) (x : Read A) (f : A → Read B) (b : B)
    → x >>= f ≡ found b
    → ((a : A) → x ≡ found a → f a ≡ found b → P)
    → P
bind-found P (found a) f b h k = k a refl h
bind-found P (config_error message) f b h k = ground arith
bind-found P raised f b h k = ground arith

abbrev pub found_or : {A : Type 0} → A → Read A → A
found_or a (found b) = b
found_or a other = a

-- What the checks guarantee of what they leave.
pub record IsPrepared (call : Invocation) (p : Prepared) : Type 0 where
  pub rows : load_dataset call.dataset call.dataset_file ≡ found p.rows
  pub fixtures : read_fixtures call ≡ found p.fixtures
  pub provider : require_provider call p.fixtures ≡ found tt
  pub baseline : load_baseline call.baseline call.baseline_file ≡ found p.baseline
  pub same : check_sha call p.baseline ≡ found tt

pub prepare-IsPrepared :
    (call : Invocation) (p : Prepared) → prepare call ≡ found p → IsPrepared call p
unfolding prepare check_provider read_baseline check_baseline
prepare-IsPrepared call p h =
    bind-found (IsPrepared call p) (load_dataset call.dataset call.dataset_file)
      (λ rows. read_fixtures call >>= check_provider call rows) p h
      (λ rows r h1.
        bind-found (IsPrepared call p) (read_fixtures call) (check_provider call rows) p h1
          (λ fixtures f h2.
            bind-found (IsPrepared call p) (require_provider call fixtures)
              (λ checked. read_baseline call rows fixtures) p h2
              (λ checked c h3.
                bind-found (IsPrepared call p) (load_baseline call.baseline call.baseline_file)
                  (check_baseline call rows fixtures) p h3
                  (λ baseline b h4.
                    bind-found (IsPrepared call p) (check_sha call baseline)
                      (λ same.
                        found (record { rows = rows; fixtures = fixtures; baseline = baseline }))
                      p h4
                      (λ same s h5. subst (IsPrepared call) (ap (found_or p) h5) (record {
                        rows = r;
                        fixtures = f;
                        provider = c;
                        baseline = b;
                        same = s;
                      }))))))

-- A baseline that was loaded stands in its file.
pub load_baseline-content :
    (path : Text) (file : Option (File Baseline)) (b : Baseline)
    → (load_baseline path file ≡ found (some b)) ↔ (file ≡ some (content b))
unfolding load_baseline
load_baseline-content path none b = ground arith
load_baseline-content path (some (os_error exc)) b = ground arith
load_baseline-content path (some (malformed exc)) b = ground arith
load_baseline-content path (some (content c)) b = ground arith

-- A baseline that is not rewritten has the hash of the data set.
has_sha-eq : (sha : Text) (other : Option Text) → has_sha sha other ≡ true → other ≡ some sha
has_sha-eq sha none h = ground arith
has_sha-eq sha (some s) h = ap some ((text_eq.beq_iff s sha).0 h)

pub check_sha-same :
    (call : Invocation) (b : Baseline)
    → check_sha call (some b) ≡ found tt
    → call.update_baseline ≡ false
    → b.dataset_sha256 ≡ some call.sha
unfolding check_sha
check_sha-same call b h k = has_sha-eq call.sha b.dataset_sha256 (ground arith)
