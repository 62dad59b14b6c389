-- ===== src/Alert.antt =====
-- include/netsentinel/alert.hpp, and the names of src/analysis/alert.cpp: alerts and their kinds.
use net_sentinel.Base.{ℕ, List}
use net_sentinel.Base.Text.{codes}

pub data AnomalyType : Type 0 where
  port_scan high_entropy_payload syn_flood signature_match : AnomalyType

pub record Alert : Type 0 where
  pub type : AnomalyType
  pub src_ip : ℕ
  pub dst_ip : ℕ
  pub src_port : ℕ
  pub dst_port : ℕ
  pub detail : List ℕ

unfoldable pub anomaly_type_to_string : AnomalyType → List ℕ
anomaly_type_to_string port_scan = codes "PORT_SCAN"
anomaly_type_to_string high_entropy_payload = codes "HIGH_ENTROPY_PAYLOAD"
anomaly_type_to_string syn_flood = codes "SYN_FLOOD"
anomaly_type_to_string signature_match = codes "SIGNATURE_MATCH"
