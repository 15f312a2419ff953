-- ===== src/Metadata/StateMachine/Laws.antt =====
-- What of an applied command depends on the node that applies it.
use save.Prelude.{Bytes, ◌≡◌, ◌≢◌, some, arith, beq_self, refl, inl, inr}
use save.Prelude.Result.{ok, Result-cases}
use save.Metadata.{Env, Db, DateTime, BucketInfo, stored}
use save.Metadata.Bucket
use save.Metadata.Bucket.{bucket_key, new_bucket}
use save.Metadata.Bucket.Laws.{create_bucket_writes}
use save.Metadata.StateMachine.{Command, create_bucket, apply_command}

module _ ⦃env : Env⦄ where
  -- Every command but `create_bucket` does the same whatever the clock of the node says.
  pub apply_command_deterministic :
      (d : Db) (now later : DateTime) (c : Command)
      → ((b : BucketInfo) → c ≢ create_bucket b)
      → apply_command now c d ≡ apply_command later c d
  unfolding apply_command
  apply_command_deterministic d now later (create_bucket b) h = absurd (h b refl)
  apply_command_deterministic d now later _ h = refl

  created_bucket :
      (d d' : Db) (now : DateTime) (b : BucketInfo)
      → apply_command now (create_bucket b) d ≡ (ok tt, d')
      → (v : Bytes) × (env.bucket_codec.encode (new_bucket now b.name) ≡ some v)
        × (stored d' (bucket_key b.name) ≡ some v)
  unfolding apply_command
  created_bucket d d' now b h = elim (Result-cases (Bucket.create_bucket now b.name d).0) [
    | inl (x, e) ↦
        let (_, _, is_new, v, encoded, after) =
          create_bucket_writes d now b.name x d' (ground arith) in
        (
          v,
          rw is_new at encoded,
          ground (arith, after (bucket_key b.name), beq_self (bucket_key b.name)),
        )
    | inr (x, e) ↦ absurd (ground arith)
  ]

  -- Two nodes that apply the same `create_bucket` command to the same database at different times
  -- store different values under the bucket's key: the time in the command is not used.
  pub create_bucket_replicas_differ :
      (d d₁ d₂ : Db) (now later : DateTime) (b : BucketInfo)
      → now ≢ later
      → apply_command now (create_bucket b) d ≡ (ok tt, d₁)
      → apply_command later (create_bucket b) d ≡ (ok tt, d₂)
      → stored d₁ (bucket_key b.name) ≢ stored d₂ (bucket_key b.name)
  unfolding new_bucket
  create_bucket_replicas_differ d d₁ d₂ now later b ne h₁ h₂ same =
      let (v, enc_v, at_v) = created_bucket d d₁ now b h₁ in
      let (w, enc_w, at_w) = created_bucket d d₂ later b h₂ in
      ground (
        arith,
        env.bucket_codec.decode-encode (new_bucket now b.name) v enc_v,
        env.bucket_codec.decode-encode (new_bucket later b.name) w enc_w,
      )
