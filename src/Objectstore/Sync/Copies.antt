-- ===== src/Objectstore/Sync/Copies.antt =====
-- pkg/objectstore/migrate.go: a synchronisation that returns no error has copied every object.
use mathlib.Core.Path.{subst}
use mathlib.Core.List.{Memᴰ}
use ekco.Prelude.{ℕ, ◌+◌, String, ◌≡◌, refl, ap, ◌⊎◌, inl, inr, List, [], ◌∷◌, arith, length}
use ekco.Errors.{Result, ok, err}
use ekco.Kube.{
  run-cases, accepted-later, accepted-here, Endpoint, ObjectInfo, Call, Trace, Env, is_ok, accepted,
}
use ekco.Objectstore.Sync.{copy_objects, sync_bucket, sync_buckets, sync_all_buckets}

-- Every object of a list was put in a bucket of the destination, and the server took it.
abbrev pub Copied : Env → Endpoint → String → List ObjectInfo → Trace → Type 0
Copied env dst bucket [] u = Unit {0}
Copied env dst bucket (o ∷ objects) u =
    Memᴰ (Call.put_object dst bucket o) (accepted env u) × Copied env dst bucket objects u

Copied-later :
    (env : Env) (dst : Endpoint) (bucket : String) (objects : List ObjectInfo) (t u : Trace)
    → ((c : Call) → Memᴰ c (accepted env t) → Memᴰ c (accepted env u))
    → Copied env dst bucket objects t
    → Copied env dst bucket objects u
Copied-later env dst bucket [] t u later copied = tt
Copied-later env dst bucket (o ∷ objects) t u later (put, copied) =
    (later _ put, Copied-later env dst bucket objects t u later copied)

-- Each bucket was listed at some moment of the run, and every object that was listed then was put.
abbrev pub AllCopied : Endpoint → Endpoint → Env → List String → Trace → Type 0
AllCopied src dst env [] u = Unit {0}
AllCopied src dst env (bucket ∷ buckets) u =
    ((start : Trace) × Copied env dst bucket (env.answer (Call.list_objects src bucket) start) u)
    × AllCopied src dst env buckets u

module _ (src dst : Endpoint) (env : Env) (u : Trace) where
  module _ (bucket : String) where
    next_object :
        (n m : ℕ) (o : ObjectInfo) (objects : List ObjectInfo) (t : Trace)
        → copy_objects src dst bucket n (o ∷ objects) env t ≡ (ok m, u)
        → copy_objects src dst bucket
            (n + 1)
            objects
            env
            (Call.put_object dst bucket o ∷ Call.get_object src bucket o.key ∷ t)
          ≡ (ok m, u)
    unfolding copy_objects
    next_object n m o objects t worked = ground arith

    put_worked :
        (n m : ℕ) (o : ObjectInfo) (objects : List ObjectInfo) (t : Trace)
        → copy_objects src dst bucket n (o ∷ objects) env t ≡ (ok m, u)
        → env.answer (Call.put_object dst bucket o) (Call.get_object src bucket o.key ∷ t) ≡ ok tt
    unfolding copy_objects
    put_worked n m o objects t worked = ground arith

    copy_objects-later :
        (n m : ℕ) (objects : List ObjectInfo) (t : Trace) (c : Call)
        → copy_objects src dst bucket n objects env t ≡ (ok m, u)
        → Memᴰ c (accepted env t)
        → Memᴰ c (accepted env u)
    unfolding copy_objects
    copy_objects-later n m [] t c worked seen =
        subst (λ v. Memᴰ c (accepted env v)) (ap (λ p. p.1) worked) seen
    copy_objects-later n m (o ∷ objects) t c worked seen =
        copy_objects-later (n + 1) m objects _ c (next_object n m o objects t worked) (
          accepted-later env (Call.get_object src bucket o.key ∷ t) c (Call.put_object dst bucket o)
            (accepted-later env t c (Call.get_object src bucket o.key) seen))

    copy_objects-Copied :
        (n m : ℕ) (objects : List ObjectInfo) (t : Trace)
        → copy_objects src dst bucket n objects env t ≡ (ok m, u)
        → Copied env dst bucket objects u × (m ≡ n + length objects)
    unfolding copy_objects
    copy_objects-Copied n m [] t worked = (tt, ground arith)
    copy_objects-Copied n m (o ∷ objects) t worked =
        let rest = next_object n m o objects t worked in
        let (copied, count) = copy_objects-Copied (n + 1) m objects _ rest in
        (
          (
            copy_objects-later (n + 1) m objects _ _ rest (
                accepted-here env (Call.get_object src bucket o.key ∷ t)
                  (Call.put_object dst bucket o) (ap is_ok (put_worked n m o objects t worked))),
            copied,
          ),
          omega arith,
        )

    sync_bucket-starts :
        (m : ℕ) (t : Trace)
        → sync_bucket src dst bucket env t ≡ (ok m, u)
        → (copy_objects src dst bucket 0
              (env.answer (Call.list_objects src bucket) (Call.bucket_exists dst bucket ∷ t))
              env
              (Call.list_objects src bucket ∷ Call.bucket_exists dst bucket ∷ t)
            ≡ (ok m, u))
          ⊎ (copy_objects src dst bucket 0
                (env.answer
                  (Call.list_objects src bucket)
                  (Call.make_bucket dst bucket ∷ Call.bucket_exists dst bucket ∷ t))
                env
                (Call.list_objects src bucket
                  ∷ Call.make_bucket dst bucket
                  ∷ Call.bucket_exists dst bucket
                  ∷ t)
              ≡ (ok m, u))
    unfolding sync_bucket
    sync_bucket-starts m t worked = ground arith

    sync_bucket-later :
        (m : ℕ) (t : Trace) (c : Call)
        → sync_bucket src dst bucket env t ≡ (ok m, u)
        → Memᴰ c (accepted env t)
        → Memᴰ c (accepted env u)
    sync_bucket-later m t c worked seen =
        let asked = Call.bucket_exists dst bucket ∷ t in
        let after = accepted-later env t c (Call.bucket_exists dst bucket) seen in
        elim (sync_bucket-starts m t worked) [
          | inl rest ↦
              copy_objects-later 0 m _ _ c rest
                (accepted-later env asked c (Call.list_objects src bucket) after)
          | inr rest ↦ copy_objects-later 0 m _ _ c rest (
              accepted-later env (Call.make_bucket dst bucket ∷ asked) c
                (Call.list_objects src bucket)
                (accepted-later env asked c (Call.make_bucket dst bucket) after))
        ]

    -- If a bucket is synchronised without an error, it was listed at some moment of the run, every
    -- object that was listed was put in the bucket of that name at the destination and taken, and the number
    -- returned is that of the objects listed.
    pub sync_bucket-copies :
        (m : ℕ) (t : Trace)
        → sync_bucket src dst bucket env t ≡ (ok m, u)
        → (start : Trace) × Copied env dst bucket
            (env.answer (Call.list_objects src bucket) start)
            u
          × (m ≡ length (env.answer (Call.list_objects src bucket) start))
    sync_bucket-copies m t worked = elim (sync_bucket-starts m t worked) [
      | inl rest ↦
          let (copied, count) = copy_objects-Copied 0 m _ _ rest in (_, copied, omega arith)
      | inr rest ↦
          let (copied, count) = copy_objects-Copied 0 m _ _ rest in (_, copied, omega arith)
    ]

module _ (src dst : Endpoint) (env : Env) where
  abbrev after : String → Trace → Trace
  after bucket t = (sync_bucket src dst bucket env t).1

  next_bucket :
      (bucket : String) (buckets : List String) (t u : Trace)
      → sync_buckets src dst (bucket ∷ buckets) env t ≡ (ok tt, u)
      → ((m : ℕ) × (sync_bucket src dst bucket env t ≡ (ok m, after bucket t)))
        × (sync_buckets src dst buckets env (after bucket t) ≡ (ok tt, u))
  unfolding sync_buckets
  next_bucket bucket buckets t u worked = elim (run-cases (sync_bucket src dst bucket env t)) [
    | inl (m, synced) ↦ ((m, synced), grind (arith, synced, worked))
    | inr (e, broken) ↦ ground arith
  ]

  sync_buckets-later :
      (buckets : List String) (t u : Trace) (c : Call)
      → sync_buckets src dst buckets env t ≡ (ok tt, u)
      → Memᴰ c (accepted env t)
      → Memᴰ c (accepted env u)
  unfolding sync_buckets
  sync_buckets-later [] t u c worked seen =
      subst (λ v. Memᴰ c (accepted env v)) (ap (λ p. p.1) worked) seen
  sync_buckets-later (bucket ∷ buckets) t u c worked seen =
      let ((m, synced), rest) = next_bucket bucket buckets t u worked in
      sync_buckets-later buckets (after bucket t) u c rest
        (sync_bucket-later src dst env (after bucket t) bucket m t c synced seen)

  sync_buckets-AllCopied :
      (buckets : List String) (t u : Trace)
      → sync_buckets src dst buckets env t ≡ (ok tt, u)
      → AllCopied src dst env buckets u
  sync_buckets-AllCopied [] t u worked = tt
  sync_buckets-AllCopied (bucket ∷ buckets) t u worked =
      let ((m, synced), rest) = next_bucket bucket buckets t u worked in
      let (start, copied, count) =
        sync_bucket-copies src dst env (after bucket t) bucket m t synced in
      (
        (
          start,
          Copied-later env dst bucket (env.answer (Call.list_objects src bucket) start)
              (after bucket t) u (λ c. sync_buckets-later buckets (after bucket t) u c rest) copied,
        ),
        sync_buckets-AllCopied buckets (after bucket t) u rest,
      )

  abbrev pub clients : Trace → Trace
  clients t = Call.new_object_client dst ∷ Call.new_object_client src ∷ t

  listed_buckets :
      (t u : Trace) (r : Result (List String))
      → env.answer (Call.list_buckets src) (clients t) ≡ r
      → sync_all_buckets src dst env t ≡ (ok tt, u)
      → (buckets : List String) × (env.answer (Call.list_buckets src) (clients t) ≡ ok buckets)
        × (sync_buckets src dst buckets env (Call.list_buckets src ∷ clients t) ≡ (ok tt, u))
  unfolding sync_all_buckets
  listed_buckets t u (ok buckets) answered worked = (buckets, answered, ground arith)
  listed_buckets t u (err e) answered worked = ground arith

  -- If all buckets are synchronised without an error, the buckets of the source were listed, each of
  -- them was listed in turn at some moment, and every object that was listed then was put in the
  -- bucket of that name at the destination by a call that was answered without an error.
  pub sync_all_buckets-copies :
      (t u : Trace)
      → sync_all_buckets src dst env t ≡ (ok tt, u)
      → (buckets : List String) × (env.answer (Call.list_buckets src) (clients t) ≡ ok buckets)
        × AllCopied src dst env buckets u
  sync_all_buckets-copies t u worked =
      let (buckets, listed, rest) =
        listed_buckets t u (env.answer (Call.list_buckets src) (clients t)) refl worked in
      (buckets, listed, sync_buckets-AllCopied buckets _ u rest)
