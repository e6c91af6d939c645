-- ===== src/Jobs/Enqueued.antt =====
-- What enqueueing a job leaves in the store, and enqueueing it again.
use agentback.Base.{
  ℕ, suc, ◌≡◌, refl, String, true, false, Option, none, some, eq_refl, arith, Result, ok, err, ap,
  sym, subst, ◌∙◌,
}
use agentback.Base.Map.{lookup-insert}
use agentback.Jobs.Store.{
  EnqueueOptions, Store, JobInfo, enqueue, get, push_job, name_job, seen_or_pushed, dedup_key,
  first_state, or_zero, or_no_meta, is_seen, note_seen,
}

module _ {A E : Type 0} (parse : A → Result E A) (job_number : ℕ → String) where
  abbrev stored_info : String → A → EnqueueOptions → JobInfo A
  stored_info id raw opts = record {
    id = id;
    state = first_state (or_zero opts.delay_ms);
    payload = raw;
    attempt = 0;
    meta = or_no_meta opts.meta;
  }

  get-push_job :
      (now : ℕ) (name id : String) (raw : A) (opts : EnqueueOptions) (s : Store A)
      → get name id (push_job now name id raw opts s) ≡ some (stored_info id raw opts)
  unfolding get
  get-push_job now name id raw opts s =
      rw (lookup-insert id id s.next s.by_id) (rw (eq_refl id) (ground (arith, eq_refl name)))

  from_ok : {B : Type 0} → B → Result E B → B
  from_ok d (ok b) = b
  from_ok d (err e) = d

  enqueue_parsed :
      (now : ℕ) (name : String) (payload raw : A) (opts : EnqueueOptions) (s : Store A)
      → parse payload ≡ ok raw
      → enqueue parse job_number now name payload opts s
        ≡ ok (
            seen_or_pushed parse job_number
              (dedup_key opts.job_id)
              (name_job parse job_number name now raw opts s opts.job_id)
              s)
  unfolding enqueue
  enqueue_parsed now name payload raw opts s p = rw (enqueue, p) refl

  -- Enqueueing under an id that is remembered.
  seen_or_pushed_seen :
      (given : String) (key : Option String) (pushed : String × Store A) (s : Store A)
      → key ≡ some given
      → s.seen_job_ids given ≡ true
      → seen_or_pushed parse job_number key pushed s ≡ (given, s)
  seen_or_pushed_seen given none pushed s e h = absurd (ground arith)
  seen_or_pushed_seen given (some id) pushed s e h = ground arith

  module _ (now : ℕ) (name : String) (payload raw : A) (opts : EnqueueOptions) (s : Store A)
      (parsed : parse payload ≡ ok raw) (unseen : is_seen s (dedup_key opts.job_id) ≡ false) where
    -- What holds of the id and the store that `enqueue` gives.
    abbrev Stored : String × Store A → Type 0
    Stored o =
        (get name o.0 o.1 ≡ some (stored_info o.0 raw opts))
        × ((given : String)
            → dedup_key opts.job_id ≡ some given
            → (later : ℕ) (payload' raw' : A) → parse payload' ≡ ok raw'
            → enqueue parse job_number later name payload' opts o.1 ≡ ok (given, o.1))

    name_job-Stored :
        (job_id : Option String)
        → opts.job_id ≡ job_id
        → Stored (name_job parse job_number name now raw opts s job_id)
    name_job-Stored none e = (
      get-push_job now name (job_number (suc s.counter)) raw opts
          (record s { counter = suc s.counter }),
      λ given key. ground arith,
    )
    name_job-Stored (some id) e =
        let seen = note_seen (dedup_key (some id)) s.seen_job_ids in
        let s' = push_job now name id raw opts (record s { seen_job_ids = seen }) in
        (
          get-push_job now name id raw opts (record s { seen_job_ids = seen }),
          λ given key later payload' raw' p.
              enqueue_parsed later name payload' raw' opts s' p
              ∙ ap ok (
                  seen_or_pushed_seen given (dedup_key opts.job_id) _ s' key
                    (noted given id (ap dedup_key (sym e) ∙ key))),
        )
      where
        noted :
            (given id : String)
            → dedup_key (some id) ≡ some given
            → note_seen (dedup_key (some id)) s.seen_job_ids given ≡ true
        noted given id key = rw key (rw (eq_refl given) refl)

    enqueue_new :
        (key : Option String)
        → is_seen s key ≡ false
        → seen_or_pushed parse job_number key
            (name_job parse job_number name now raw opts s opts.job_id)
            s
          ≡ name_job parse job_number name now raw opts s opts.job_id
    enqueue_new none h = refl
    enqueue_new (some id) h = rw h refl

    -- A job that is stored is found under the id that `enqueue` gives, waiting or delayed, with the
    -- payload that the schema gave and no attempt; and if the next call of the queue enqueues with the
    -- same options, a `jobId` among them, at any time and with any payload that the schema accepts, it
    -- gives the same id and changes nothing.
    pub get-enqueue :
        (id : String) (s' : Store A)
        → enqueue parse job_number now name payload opts s ≡ ok (id, s')
        → (get name id s' ≡ some (stored_info id raw opts))
          × ((given : String)
              → dedup_key opts.job_id ≡ some given
              → (later : ℕ) (payload' raw' : A) → parse payload' ≡ ok raw'
              → enqueue parse job_number later name payload' opts s' ≡ ok (given, s'))
    unfolding from_ok
    get-enqueue id s' h =
        subst Stored
          (sym (enqueue_new (dedup_key opts.job_id) unseen)
            ∙ ap (from_ok (id, s')) (sym (enqueue_parsed now name payload raw opts s parsed) ∙ h))
          (name_job-Stored opts.job_id refl)
