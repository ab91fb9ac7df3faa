-- ===== src/Cni/Errors.antt =====
-- The errors that pkg/cni returns, one constructor for each message, with the text it is about or
-- the error that it wraps.
use swarm_cracker.Prelude.{String, Result}

pub data CniError : Type 0 where
  -- ipam.go
  pool_not_found invalid_subnet ip_exhaustion vip_exhaustion ip_not_allocated : String → CniError
  -- config.go
  pool_not_ipv4 invalid_pool_subnet : CniError
  -- provider.go
  driver_not_supported ingress_driver_not_supported ipam_driver_not_supported : String → CniError
  network_not_found : String → CniError
  generate_subnet_failed parse_subnet_failed create_pool_failed : CniError → CniError
  config_generation_failed config_write_failed : CniError
  plugin_validation_failed predefined_networks_failed : CniError
  -- allocator.go
  network_nil service_nil task_nil node_or_attachment_nil : CniError
  network_not_allocated : String → CniError
  allocate_network_failed allocate_vip_failed : CniError → CniError
  allocate_task_ip_failed allocate_attachment_ip_failed : CniError → CniError

abbrev pub Outcome : Type 0 → Type 0
Outcome = Result CniError
