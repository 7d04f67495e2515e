-- ===== src/Protocol/Encoder.antt =====
-- protocol/encoder.cpp: the bytes of a frame. The fields follow each other at the source's offsets.
use order_matching_engine.Base.{ℕ, ◌+◌, List, ◌++◌}
use order_matching_engine.Protocol.Wire.{put_u8, put_u32, put_u64, put_i64}
use order_matching_engine.Protocol.Messages.{
  MessageType, login, new_order, cancel, cancel_replace, heartbeat, login_ack, login_reject,
  exec_report, reject, type_code, side_code, order_type_code, tif_code, LoginMsg, NewOrderMsg,
  CancelMsg, CancelReplaceMsg, HeartbeatMsg, LoginAckMsg, LoginRejectMsg, ExecReportMsg, RejectMsg,
}

unfoldable pub write_header : MessageType → ℕ → List ℕ
write_header type payload_size = put_u32 (1 + payload_size) ++ put_u8 (type_code type)

unfoldable pub encode_login : LoginMsg → List ℕ
unfolding write_header
encode_login m =
    write_header login 48 ++ (put_i64 m.participant_id ++ (m.token ++ put_u64 m.client_seq_num))

unfoldable pub encode_new_order : NewOrderMsg → List ℕ
unfolding write_header
encode_new_order m =
    write_header new_order 39
    ++ (put_u64 m.client_seq_num
        ++ (put_i64 m.order_id
            ++ (put_u32 m.instrument_id
                ++ (put_u8 (side_code m.side)
                    ++ (put_u8 (order_type_code m.order_type)
                        ++ (put_i64 m.price
                            ++ (put_i64 m.quantity ++ put_u8 (tif_code m.time_in_force))))))))

unfoldable pub encode_cancel : CancelMsg → List ℕ
unfolding write_header
encode_cancel m =
    write_header cancel 20
    ++ (put_u64 m.client_seq_num ++ (put_i64 m.order_id ++ put_u32 m.instrument_id))

unfoldable pub encode_cancel_replace : CancelReplaceMsg → List ℕ
unfolding write_header
encode_cancel_replace m =
    write_header cancel_replace 36
    ++ (put_u64 m.client_seq_num
        ++ (put_i64 m.order_id
            ++ (put_u32 m.instrument_id ++ (put_i64 m.new_price ++ put_i64 m.new_quantity))))

unfoldable pub encode_heartbeat : HeartbeatMsg → List ℕ
unfolding write_header
encode_heartbeat m = write_header heartbeat 8 ++ put_u64 m.marker

unfoldable pub encode_login_ack : LoginAckMsg → List ℕ
unfolding write_header
encode_login_ack m = write_header login_ack 9 ++ (put_i64 m.server_seq ++ put_u8 m.status)

unfoldable pub encode_login_reject : LoginRejectMsg → List ℕ
unfolding write_header
encode_login_reject m = write_header login_reject 2 ++ (put_u8 m.reason ++ put_u8 m.reserved)

unfoldable pub encode_exec_report : ExecReportMsg → List ℕ
unfolding write_header
encode_exec_report m =
    write_header exec_report 49
    ++ (put_i64 m.order_id
        ++ (put_u8 m.exec_type
            ++ (put_i64 m.exec_qty
                ++ (put_i64 m.leaves_qty
                    ++ (put_i64 m.trade_price ++ (put_i64 m.trade_id ++ put_i64 m.global_seq))))))

unfoldable pub encode_reject : RejectMsg → List ℕ
unfolding write_header
encode_reject m =
    write_header reject 17 ++ (put_i64 m.order_id ++ (put_u8 m.reason ++ put_i64 m.global_seq))
