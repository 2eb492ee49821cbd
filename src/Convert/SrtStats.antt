-- ===== src/Convert/SrtStats.antt =====
-- goconv/srt_stats.go: the statistics of an SRT socket, and their message.
-- `int`, `int64` and `int32` are integers and `uint64` a natural number. `Float` is `float64`: its values are copied.
pub mod Functions
use ffstream.Base.{ℕ, ℤ}

module _ (Float : Type 0) where
  -- `libsrt.Tracebstats`, with the fields that are converted
  pub record Tracebstats : Type 0 where
    pub ms_time_stamp : ℤ
    pub pkt_sent_total : ℤ
    pub pkt_recv_total : ℤ
    pub pkt_snd_loss_total : ℤ
    pub pkt_rcv_loss_total : ℤ
    pub pkt_retrans_total : ℤ
    pub pkt_sent_ack_total : ℤ
    pub pkt_recv_ack_total : ℤ
    pub pkt_sent_nak_total : ℤ
    pub pkt_recv_nak_total : ℤ
    pub us_snd_duration_total : ℤ
    pub pkt_snd_drop_total : ℤ
    pub pkt_rcv_drop_total : ℤ
    pub pkt_rcv_undecrypt_total : ℤ
    pub byte_sent_total : ℕ
    pub byte_recv_total : ℕ
    pub byte_rcv_loss_total : ℕ
    pub byte_retrans_total : ℕ
    pub byte_snd_drop_total : ℕ
    pub byte_rcv_drop_total : ℕ
    pub byte_rcv_undecrypt_total : ℕ
    pub pkt_sent : ℤ
    pub pkt_recv : ℤ
    pub pkt_snd_loss : ℤ
    pub pkt_rcv_loss : ℤ
    pub pkt_retrans : ℤ
    pub pkt_rcv_retrans : ℤ
    pub pkt_sent_ack : ℤ
    pub pkt_recv_ack : ℤ
    pub pkt_sent_nak : ℤ
    pub pkt_recv_nak : ℤ
    pub mbps_send_rate : Float
    pub mbps_recv_rate : Float
    pub us_snd_duration : ℤ
    pub pkt_reorder_distance : ℤ
    pub pkt_rcv_avg_belated_time : Float
    pub pkt_rcv_belated : ℤ
    pub pkt_snd_drop : ℤ
    pub pkt_rcv_drop : ℤ
    pub pkt_rcv_undecrypt : ℤ
    pub byte_sent : ℕ
    pub byte_recv : ℕ
    pub byte_rcv_loss : ℕ
    pub byte_retrans : ℕ
    pub byte_snd_drop : ℕ
    pub byte_rcv_drop : ℕ
    pub byte_rcv_undecrypt : ℕ
    pub us_pkt_snd_period : Float
    pub pkt_flow_window : ℤ
    pub pkt_congestion_window : ℤ
    pub pkt_flight_size : ℤ
    pub ms_rtt : Float
    pub mbps_bandwidth : Float
    pub byte_avail_snd_buf : ℤ
    pub byte_avail_rcv_buf : ℤ
    pub mbps_max_bw : Float
    pub byte_mss : ℤ
    pub pkt_snd_buf : ℤ
    pub byte_snd_buf : ℤ
    pub ms_snd_buf : ℤ
    pub ms_snd_tsb_pd_delay : ℤ
    pub pkt_rcv_buf : ℤ
    pub byte_rcv_buf : ℤ
    pub ms_rcv_buf : ℤ
    pub ms_rcv_tsb_pd_delay : ℤ
    pub pkt_snd_filter_extra_total : ℤ
    pub pkt_rcv_filter_extra_total : ℤ
    pub pkt_rcv_filter_supply_total : ℤ
    pub pkt_rcv_filter_loss_total : ℤ
    pub pkt_snd_filter_extra : ℤ
    pub pkt_rcv_filter_extra : ℤ
    pub pkt_rcv_filter_supply : ℤ
    pub pkt_rcv_filter_loss : ℤ
    pub pkt_reorder_tolerance : ℤ
    pub pkt_sent_unique_total : ℤ
    pub pkt_recv_unique_total : ℤ
    pub byte_sent_unique_total : ℕ
    pub byte_recv_unique_total : ℕ
    pub pkt_sent_unique : ℤ
    pub pkt_recv_unique : ℤ
    pub byte_sent_unique : ℕ
    pub byte_recv_unique : ℕ

  -- The message `GetOutputSRTStatsReply`
  pub record OutputSrtStats : Type 0 where
    pub ms_time_stamp : ℤ
    pub pkt_sent_total : ℤ
    pub pkt_recv_total : ℤ
    pub pkt_snd_loss_total : ℤ
    pub pkt_rcv_loss_total : ℤ
    pub pkt_retrans_total : ℤ
    pub pkt_sent_ack_total : ℤ
    pub pkt_recv_ack_total : ℤ
    pub pkt_sent_nak_total : ℤ
    pub pkt_recv_nak_total : ℤ
    pub us_snd_duration_total : ℤ
    pub pkt_snd_drop_total : ℤ
    pub pkt_rcv_drop_total : ℤ
    pub pkt_rcv_undecrypt_total : ℤ
    pub byte_sent_total : ℕ
    pub byte_recv_total : ℕ
    pub byte_rcv_loss_total : ℕ
    pub byte_retrans_total : ℕ
    pub byte_snd_drop_total : ℕ
    pub byte_rcv_drop_total : ℕ
    pub byte_rcv_undecrypt_total : ℕ
    pub pkt_sent : ℤ
    pub pkt_recv : ℤ
    pub pkt_snd_loss : ℤ
    pub pkt_rcv_loss : ℤ
    pub pkt_retrans : ℤ
    pub pkt_rcv_retrans : ℤ
    pub pkt_sent_ack : ℤ
    pub pkt_recv_ack : ℤ
    pub pkt_sent_nak : ℤ
    pub pkt_recv_nak : ℤ
    pub mbps_send_rate : Float
    pub mbps_recv_rate : Float
    pub us_snd_duration : ℤ
    pub pkt_reorder_distance : ℤ
    pub pkt_rcv_avg_belated_time : Float
    pub pkt_rcv_belated : ℤ
    pub pkt_snd_drop : ℤ
    pub pkt_rcv_drop : ℤ
    pub pkt_rcv_undecrypt : ℤ
    pub byte_sent : ℕ
    pub byte_recv : ℕ
    pub byte_rcv_loss : ℕ
    pub byte_retrans : ℕ
    pub byte_snd_drop : ℕ
    pub byte_rcv_drop : ℕ
    pub byte_rcv_undecrypt : ℕ
    pub us_pkt_snd_period : Float
    pub pkt_flow_window : ℤ
    pub pkt_congestion_window : ℤ
    pub pkt_flight_size : ℤ
    pub ms_rtt : Float
    pub mbps_bandwidth : Float
    pub byte_avail_snd_buf : ℤ
    pub byte_avail_rcv_buf : ℤ
    pub mbps_max_bw : Float
    pub byte_mss : ℤ
    pub pkt_snd_buf : ℤ
    pub byte_snd_buf : ℤ
    pub ms_snd_buf : ℤ
    pub ms_snd_tsb_pd_delay : ℤ
    pub pkt_rcv_buf : ℤ
    pub byte_rcv_buf : ℤ
    pub ms_rcv_buf : ℤ
    pub ms_rcv_tsb_pd_delay : ℤ
    pub pkt_snd_filter_extra_total : ℤ
    pub pkt_rcv_filter_extra_total : ℤ
    pub pkt_rcv_filter_supply_total : ℤ
    pub pkt_rcv_filter_loss_total : ℤ
    pub pkt_snd_filter_extra : ℤ
    pub pkt_rcv_filter_extra : ℤ
    pub pkt_rcv_filter_supply : ℤ
    pub pkt_rcv_filter_loss : ℤ
    pub pkt_reorder_tolerance : ℤ
    pub pkt_sent_unique_total : ℤ
    pub pkt_recv_unique_total : ℤ
    pub byte_sent_unique_total : ℕ
    pub byte_recv_unique_total : ℕ
    pub pkt_sent_unique : ℤ
    pub pkt_recv_unique : ℤ
    pub byte_sent_unique : ℕ
    pub byte_recv_unique : ℕ
