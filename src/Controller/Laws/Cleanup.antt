-- ===== src/Controller/Laws/Cleanup.antt =====
-- internal/controller: what becomes of the jobs that clean a node up, of jobs of an old generation, and
-- of the entries of a status.
use multi_network_interface.Prelude.Text.{Text}
use multi_network_interface.Controller.Cluster.{Controller}
