-- ===== src/Stores/Checkpoints/Restoring.antt =====
-- What a checkpoint restores (src/core/stores/memory_checkpoint_store.py).
use agent_roles.Common.{
  String, ◌≡◌, refl, ap, ◌∙◌, Bool, true, false, ok, arith, eq_iff, or_raise, key_error,
}
use agent_roles.Common.Dict.{get, put, contains, get-put, get-put_self}
use agent_roles.Stores.Checkpoints.{
  CheckpointRecord, SnapshotPayload, CheckpointStore, consistent, create, restore,
}

-- There is a payload for every checkpoint, and no other.
abbrev pub IsPaired : CheckpointStore → Type 0
IsPaired st = (id : String) → contains st.payloads id ≡ contains st.checkpoints id

module _ (c : CheckpointRecord) (p : SnapshotPayload) (st after : CheckpointStore) where
  -- What a checkpoint that is created writes, and that its id was free.
  create_lem :
      create c p st ≡ ok after
      → (contains st.checkpoints c.checkpoint_id ≡ false)
        × (after.checkpoints ≡ put st.checkpoints c.checkpoint_id c)
        × (after.payloads ≡ put st.payloads c.checkpoint_id p)
  unfolding create
  create_lem h = from (contains st.checkpoints c.checkpoint_id) (consistent c p) refl refl
    where
      from :
          (a b : Bool)
          → contains st.checkpoints c.checkpoint_id ≡ a
          → consistent c p ≡ b
          → (contains st.checkpoints c.checkpoint_id ≡ false)
            × (after.checkpoints ≡ put st.checkpoints c.checkpoint_id c)
            × (after.payloads ≡ put st.payloads c.checkpoint_id p)
      from true b e f = absurd (ground arith)
      from false false e f = absurd (ground arith)
      from false true e f = (e, ground arith, ground arith)

  -- A checkpoint that is created restores the payload that it was created with, and every earlier
  -- checkpoint of a store that pairs checkpoints with payloads restores what it did; the store
  -- pairs them afterwards.
  pub restore-create :
      IsPaired st
      → create c p st ≡ ok after
      → (restore after c.checkpoint_id ≡ ok p)
        × ((id : String) (q : SnapshotPayload) → restore st id ≡ ok q → restore after id ≡ ok q)
        × IsPaired after
  unfolding restore
  restore-create paired h =
      let (free, cs, ps) = create_lem h in
      let id = c.checkpoint_id in
      (
        ap (λ d. or_raise (get d id) key_error) ps
            ∙ ap (λ o. or_raise o key_error) (get-put_self st.payloads id p),
        λ j q e. ground (arith, ps, get-put st.payloads id p j, paired id, free, eq_iff id j),
        λ j.
            ground
              (arith, ps, cs, get-put st.payloads id p j, get-put st.checkpoints id c j, paired j),
      )
