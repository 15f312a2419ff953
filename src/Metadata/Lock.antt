-- ===== src/Metadata/Lock.antt =====
-- crates/save-metadata/src/lock.rs: the state of an object's lock and the operations on it that
-- the Raft state machine applies.
pub mod State
pub mod Laws
pub mod Progress
use save.Prelude.{
  ℕ, Bytes, bytes, ◌++◌, List, [], ◌∷◌, Option, none, some, Bool, true, false, not, ◌&&◌, ◌||◌, any,
  filter, ◌==◌, if◌then◌else◌,
}
use save.Prelude.Result.{map_ok}
use save.Metadata.{
  Env, Op, LockType, read, write, LockHolder, LockState, ◌>>=◌, ◌>>◌, pure, lift, reading, db_get,
  db_put, db_delete, encode_to_vec, decode_from_slice,
}

unfoldable pub lock_key : Bytes → Bytes → Bytes
lock_key bucket key = bytes "lock:" ++ (bucket ++ (bytes "/" ++ key))

-- The derived `PartialEq` of `LockHolder`.
unfoldable pub same_holder : LockHolder → LockHolder → Bool
same_holder h g = h.node_id == g.node_id && h.lock_id == g.lock_id

unfoldable pub is_held_by : LockState → LockHolder → Bool
unfolding same_holder
is_held_by s holder = any (λ h. same_holder h holder) s.holders

-- The `match` of `can_acquire`.
unfoldable pub compatible : LockType → LockType → Bool
compatible read read = true
compatible read write = false
compatible write _ = false

unfoldable pub can_acquire : LockState → LockType → LockHolder → Bool
unfolding same_holder compatible
can_acquire s lock_type holder =
    if any (λ h. same_holder h holder) s.holders then true else compatible s.lock_type lock_type

module _ ⦃env : Env⦄ where
  decode_state : Option Bytes → Op (Option LockState)
  decode_state none = pure none
  decode_state (some value) = lift (map_ok some (decode_from_slice env.lock_codec value))

  unfoldable pub get_lock_state : Bytes → Bytes → Op (Option LockState)
  unfolding decode_state
  get_lock_state bucket key = do found ← reading (db_get (lock_key bucket key)); decode_state found

  put_state : Bytes → Bytes → LockState → Op Bool
  put_state bucket key s = do
    value ← lift (encode_to_vec env.lock_codec s)
    db_put (lock_key bucket key) value
    pure true

  -- The `match` of `acquire_lock`.
  acquire_from : Bytes → Bytes → LockType → LockHolder → Option LockState → Op Bool
  unfolding put_state
  acquire_from bucket key lock_type holder none =
      put_state bucket key (record { lock_type = lock_type; holders = holder ∷ [] })
  acquire_from bucket key lock_type holder (some s) =
      if is_held_by s holder
      then pure true
      else if not (can_acquire s lock_type holder)
      then pure false
      else put_state bucket key (record s { holders = s.holders ++ holder ∷ [] })

  unfoldable pub acquire_lock : Bytes → Bytes → LockType → LockHolder → Op Bool
  unfolding acquire_from
  acquire_lock bucket key lock_type holder = do
    current_state ← get_lock_state bucket key
    acquire_from bucket key lock_type holder current_state

  -- What `release_lock` writes back once the holder is taken off.
  write_back : Bytes → Bytes → LockType → List LockHolder → Op (Unit {0})
  write_back bucket key lock_type [] = db_delete (lock_key bucket key)
  write_back bucket key lock_type (h ∷ holders) = do
    value ←
        lift
          (encode_to_vec env.lock_codec (record { lock_type = lock_type; holders = h ∷ holders }))
    db_put (lock_key bucket key) value

  release_from : Bytes → Bytes → LockHolder → Option LockState → Op (Unit {0})
  unfolding write_back
  release_from bucket key holder none = pure tt
  release_from bucket key holder (some s) =
      write_back bucket key s.lock_type (filter (λ h. not (same_holder h holder)) s.holders)

  unfoldable pub release_lock : Bytes → Bytes → LockHolder → Op (Unit {0})
  unfolding release_from
  release_lock bucket key holder = do
    current_state ← get_lock_state bucket key
    release_from bucket key holder current_state
