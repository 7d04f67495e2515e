-- ===== src/Sequencer/Submit/History.antt =====
-- What the sequencer has handed out, against its ring.
use order_matching_engine.Base.{
  ◌+◌, ◌%◌, ◌<◌, ◌≡◌, sym, ap₂, subst, List, [], ◌∷◌, ◌++◌, true, false, length, arith, ltb, ltb→lt,
  Bool-cases, inl, inr,
}
use order_matching_engine.Ipc.Command.{Command, CommandKind}
use order_matching_engine.Ipc.SpscRing.{SpscRing, try_claim, write_slot, publish}
use order_matching_engine.Ipc.SpscRing.Refine.{
  Holds, Holds-length, try_claim_lem, try_claim-Holds, try_claim-head, try_claim-capacity,
  publish-Holds,
}
use order_matching_engine.Sequencer.Submit.{
  Outcome, sequenced, ring_full, durability_failure, Sequencer, Append, append_then_publish,
  try_submit,
}

module _ {J : Type 0} (append : Append J) where
  -- What a submission does to a sequencer whose ring holds `w`.
  pub data Submitted (q : Sequencer J) (w : List Command) (kind : CommandKind) (c : Command)
      : Sequencer J × Outcome → Type 0 where
    full :
        (r : SpscRing Command)
        → length w ≡ q.ring.capacity
        → Holds r w
        → Submitted q w kind c (record q { ring = r }, ring_full)
    failed :
        (r : SpscRing Command)
        → length w < q.ring.capacity
        → Holds r w
        → (append q.journal (q.seq + 1) kind c).1 ≡ false
        → Submitted q w kind c (
          record q { ring = r; journal = (append q.journal (q.seq + 1) kind c).0 },
          durability_failure,
        )
    done :
        (r : SpscRing Command)
        → length w < q.ring.capacity
        → Holds r (w ++ (c ∷ []))
        → (append q.journal (q.seq + 1) kind c).1 ≡ true
        → Submitted q w kind c (
          record q { ring = r; journal = (append q.journal (q.seq + 1) kind c).0; seq = q.seq + 1 },
          sequenced (q.seq + 1),
        )

  -- On a ring that holds some commands, a submission does one of three things: the ring is full,
  -- and journal, number and queue are unchanged; or there is room and the journal fails, and
  -- number and queue are unchanged; or the journal succeeds, and the command is the last of the
  -- queue under the next number.
  pub try_submit-Submitted :
      (q : Sequencer J) (w : List Command) (kind : CommandKind) (c : Command)
      → Holds q.ring w
      → Submitted q w kind c (try_submit append q kind c)
  unfolding try_submit append_then_publish
  try_submit-Submitted q w kind c h =
      let r : SpscRing Command = (try_claim q.ring).1 in
      let claimed : Holds r w = try_claim-Holds q.ring w h in
      let answer = try_claim_lem q.ring h.ring in
      let n = Holds-length q.ring w h in
      elim (Bool-cases (ltb (length w) q.ring.capacity)) [
        | inl e ↦ elim (Bool-cases (append q.journal (q.seq + 1) kind c).1) [
          | inl f ↦
              rw (answer, sym n, e, f)
                (done _ (ltb→lt (length w) q.ring.capacity e)
                  (subst (λ i. Holds (publish (write_slot r i c)) (w ++ (c ∷ [])))
                    (ap₂ (λ x y. x % y) (try_claim-head q.ring) (try_claim-capacity q.ring))
                    (publish-Holds r w c claimed (
                      omega
                        (arith, try_claim-capacity q.ring, ltb→lt (length w) q.ring.capacity e))))
                  f)
          | inr f ↦
              rw (answer, sym n, e, f) (failed r (ltb→lt (length w) q.ring.capacity e) claimed f)
        ]
        | inr e ↦ rw (answer, sym n, e) (full r (ground (arith, e, n, h.ring.bounded)) claimed)
      ]
