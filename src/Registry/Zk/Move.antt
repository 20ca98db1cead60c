-- ===== src/Registry/Zk/Move.antt =====
-- `_mark_done` and `mark_ongoing` of `ZkJobRegistry`: both create a node in one area with what they
-- read, and delete the node of the other area.
use openeo_geopyspark_driver.Prelude.{
  ℕ, String, ◌==◌, ◌≡◌, ◌≢◌, refl, ◌∙◌, true, false, ◌&&◌, some, [], ◌∷◌, ◌++◌, arith, eq_comm,
}
use openeo_geopyspark_driver.Outcome.{ok, err, no_node}
use openeo_geopyspark_driver.Floats.{Floats}
use openeo_geopyspark_driver.Codec.{JsonCodec, IsFaithful}
use openeo_geopyspark_driver.Zookeeper.{ZkPath, ZkClient, is_prefix, IsLeaf, IsLawful}
use openeo_geopyspark_driver.Registry.Info.{JobInfo}
use openeo_geopyspark_driver.Registry.Zk.{mark_done, mark_ongoing}
use openeo_geopyspark_driver.Registry.Zk.Paths.{job_path, is_prefix-job_path, below-job_path}
use openeo_geopyspark_driver.Registry.Zk.Laws.{Holds, IsOwn, read_ongoing, read_done}

module _ (R : Floats) (C : JsonCodec R.Float) (Z : ZkClient C.Bytes) (top : String)
    (base : ZkPath) where
  -- No node of another job than the given one changes.
  abbrev pub Others : String → String → Z.State → Z.State → Type 0
  Others job user s s' =
      (area user' job' : String)
      → (user == user' && (job == job' && true)) ≡ false
      → Z.get (job_path top base area user' job') s' ≡ Z.get (job_path top base area user' job') s

  -- The node is made in the one area and goes from the other.
  record Moves (from to user job : String) (info : JobInfo R C) (ver first : ℕ) (s : Z.State)
      : Type 0 where
    mid : Z.State
    after : Z.State
    created : Z.create (job_path top base to user job) (C.encode info) s ≡ ok mid
    deleted : Z.delete (job_path top base from user job) (some ver) mid ≡ ok after
    gone : Z.get (job_path top base from user job) after ≡ err no_node
    holds : Holds R C Z (job_path top base to user job) info first after
    others : Others job user s after

  module _ (L : IsLawful Z) (faithful : IsFaithful C) (job user : String) (job_given : job ≢ "")
      (user_given : user ≢ "") where
    move_lem :
        (from to : String) (info : JobInfo R C) (version : ℕ) (s : Z.State)
        → (from == to) ≡ false
        → Holds R C Z (job_path top base from user job) info version s
        → IsLeaf Z (job_path top base from user job) s
        → Z.get (job_path top base to user job) s ≡ err no_node
        → Moves from to user job info version L.first_version s
    move_lem from to info version s apart h leaf free =
        let made = L.create_fresh top (base ++ (to ∷ user ∷ job ∷ [])) (C.encode info) s free in
        let away : is_prefix (job_path top base from user job) (job_path top base to user job)
            ≡ false =
          is_prefix-job_path top base from user job to user job ∙ ground arith in
        let gone =
          L.delete_leaf top (base ++ (from ∷ user ∷ job ∷ [])) (some version) made.after
            (made.frame (job_path top base from user job) away ∙ h.at) (ground arith)
            (λ name.
              made.frame (job_path top base from user job ++ (name ∷ []))
                (below-job_path top base from user job name to user job)
              ∙ leaf name) in
        record {
          mid = made.after;
          after = gone.after;
          created = made.runs;
          deleted = gone.runs;
          gone = gone.here;
          holds = record {
            bytes = C.encode info;
            at = gone.frame (job_path top base to user job) away ∙ made.here;
            decodes = faithful.decode-encode info;
          };
          others = λ area user' job' d.
              gone.frame (job_path top base area user' job')
                (is_prefix-job_path top base from user job area user' job' ∙ ground arith)
              ∙ made.frame (job_path top base area user' job') (
                  is_prefix-job_path top base area user' job' to user job
                  ∙ ground (arith, eq_comm user user', eq_comm job job'));
        }

    -- `_mark_done` of an ongoing job whose info names the job and the user, whose node has no
    -- children, and that has no node among the done ones: it succeeds, the info stands among the
    -- done jobs, the ongoing node is gone, and no node of another job changes. The ids are not
    -- empty; the client is lawful and the codec reads back what it writes.
    pub mark_done_lem :
        (info : JobInfo R C) (version : ℕ) (s : Z.State)
        → Holds R C Z (job_path top base "ongoing" user job) info version s
        → IsOwn R C Z job user info
        → IsLeaf Z (job_path top base "ongoing" user job) s
        → Z.get (job_path top base "done" user job) s ≡ err no_node
        → (s' : Z.State) × (mark_done R C Z top base job user s ≡ (ok tt, s'))
          × (Z.get (job_path top base "ongoing" user job) s' ≡ err no_node)
          × Holds R C Z (job_path top base "done" user job) info L.first_version s'
          × Others job user s s'
    unfolding mark_done
    mark_done_lem info version s h own leaf free =
        let m = move_lem "ongoing" "done" info version s refl h leaf free in
        let created = m.created in
        let deleted = m.deleted in
        let seen =
          read_ongoing R C Z top base false job user info version s job_given user_given h in
        (m.after, ground (arith, seen, own.job_id, own.user_id), m.gone, m.holds, m.others)

    -- `mark_ongoing` of a done job whose info names the job and the user, whose node has no
    -- children, and that has no node among the ongoing ones: it succeeds, the info stands among
    -- the ongoing jobs, the done node is gone, and no node of another job changes. The ids are
    -- not empty; the client is lawful and the codec reads back what it writes.
    pub mark_ongoing_lem :
        (info : JobInfo R C) (version : ℕ) (s : Z.State)
        → Holds R C Z (job_path top base "done" user job) info version s
        → IsOwn R C Z job user info
        → IsLeaf Z (job_path top base "done" user job) s
        → Z.get (job_path top base "ongoing" user job) s ≡ err no_node
        → (s' : Z.State) × (mark_ongoing R C Z top base job user s ≡ (ok tt, s'))
          × (Z.get (job_path top base "done" user job) s' ≡ err no_node)
          × Holds R C Z (job_path top base "ongoing" user job) info L.first_version s'
          × Others job user s s'
    unfolding mark_ongoing
    mark_ongoing_lem info version s h own leaf free =
        let m = move_lem "done" "ongoing" info version s refl h leaf free in
        let created = m.created in
        let deleted = m.deleted in
        let seen = read_done R C Z top base job user info version s job_given user_given free h in
        (m.after, ground (arith, seen, own.job_id, own.user_id), m.gone, m.holds, m.others)
