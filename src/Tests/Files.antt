-- ===== src/Tests/Files.antt =====
-- The removal of configurations, in a directory with numbered files.
use swarm_cracker.Prelude.{true, false, ◌≡◌, refl, code_points}
use swarm_cracker.Cni.Files.{FileName, is_in, conf_name, contains_network_name, remove_config_file}

abbrev name : FileName
name = code_points "web"

numbered_matches : contains_network_name (code_points "01-web.conf") name ≡ true
unfolding contains_network_name swarm_cracker.Cni.Files.base_name
    swarm_cracker.Cni.Files.find_prefix_end swarm_cracker.Cni.Files.prefix_end_from
numbered_matches = refl

conflist_differs : contains_network_name (code_points "03-web.conflist") name ≡ false
unfolding contains_network_name swarm_cracker.Cni.Files.base_name
    swarm_cracker.Cni.Files.find_prefix_end swarm_cracker.Cni.Files.prefix_end_from
conflist_differs = refl
