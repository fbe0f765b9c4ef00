-- ===== src/Http/Elasticsearch/Documents.antt =====
-- The documents that the Elasticsearch handlers of internal/proto/http/handler.go answer with.
use white_toyota_tacoma.Common.{ℕ, Bool, false, ◌++◌}
use white_toyota_tacoma.Common.Int.{ℤ}
use white_toyota_tacoma.Common.Bytes.{Bytes, codes}
use white_toyota_tacoma.Common.Json.{
  Json, null, text, number, boolean, list, object, nil, cons, Members, end, field,
}
use white_toyota_tacoma.Fingerprint.{Fp}

-- `ESConfig`
pub record EsConfig : Type 0 where
  pub version : Bytes
  pub cluster_name : Bytes
  pub node_name : Bytes

-- The arguments of `ServeElasticsearch`; the store may be nil.
pub record Env : Type 0 where
  pub fp : Fp
  pub cfg : EsConfig
  pub store : Bool
  pub max_body_bytes : ℤ

abbrev build_date : Bytes
build_date = codes "2024-03-22T03:35:46.757803421Z"

root_version : Env → Members
root_version env = field (codes "number") (text env.cfg.version) (
    field (codes "build_flavor") (text (codes "default")) (
      field (codes "build_type") (text (codes "tar")) (
        field (codes "build_hash") (text env.fp.es_build_hash) (
          field (codes "build_date") (text build_date) (
            field (codes "build_snapshot") (boolean false) (
              field (codes "lucene_version") (text (codes "9.10.0")) (
                field (codes "minimum_wire_compatibility_version") (text (codes "7.17.0")) (
                  field (codes "minimum_index_compatibility_version") (text (codes "7.0.0"))
                    end))))))))

unfoldable pub root_doc : Env → Members
unfolding root_version
root_doc env = field (codes "name") (text env.cfg.node_name) (
    field (codes "cluster_name") (text env.cfg.cluster_name) (
      field (codes "cluster_uuid") (text env.fp.es_node_uuid) (
        field (codes "version") (object (root_version env))
          (field (codes "tagline") (text (codes "You Know, for Search")) end))))

abbrev counts : ℕ → ℕ → ℕ → Json
counts total successful failed = object (
    field (codes "total") (number total)
      (field (codes "successful") (number successful) (field (codes "failed") (number failed) end)))

node_os : Members
node_os = field (codes "name") (text (codes "Linux")) (
    field (codes "arch") (text (codes "amd64")) (
      field (codes "version") (text (codes "5.15.0"))
        (field (codes "available_processors") (number 4) end)))

node_process : Env → Members
node_process env =
    field (codes "id") (number env.fp.es_pid) (field (codes "mlockall") (boolean false) end)

node_network : Env → Members
node_network env =
    field (codes "primary_interface")
      (object (
        field (codes "address") (text env.fp.es_hostname) (
          field (codes "name") (text (codes "eth0"))
            (field (codes "mac_address") (text env.fp.es_mac_address) end))))
      end

node : Env → Members
unfolding node_os node_process node_network
node env = field (codes "name") (text env.cfg.node_name) (
    field (codes "transport_address") (text (env.fp.es_hostname ++ codes ":9300")) (
      field (codes "host") (text env.fp.es_hostname) (
        field (codes "ip") (text env.fp.es_hostname) (
          field (codes "version") (text env.cfg.version) (
            field (codes "build_hash") (text env.fp.es_build_hash) (
              field (codes "roles")
                (list (
                  cons (text (codes "master"))
                    (cons (text (codes "data")) (cons (text (codes "ingest")) nil))))
                (field (codes "os") (object node_os) (
                  field (codes "process") (object (node_process env))
                    (field (codes "network") (object (node_network env)) end)))))))))

unfoldable pub nodes_doc : Env → Members
unfolding node
nodes_doc env = field (codes "_nodes") (counts 1 1 0) (
    field (codes "cluster_name") (text env.cfg.cluster_name)
      (field (codes "nodes") (object (field env.fp.es_node_uuid (object (node env)) end)) end))

unfoldable pub health_doc : Env → Members
health_doc env = field (codes "cluster_name") (text env.cfg.cluster_name) (
    field (codes "status") (text (codes "green")) (
      field (codes "timed_out") (boolean false) (
        field (codes "number_of_nodes") (number 1) (
          field (codes "number_of_data_nodes") (number 1) (
            field (codes "active_primary_shards") (number 0) (
              field (codes "active_shards") (number 0) (
                field (codes "relocating_shards") (number 0) (
                  field (codes "initializing_shards") (number 0) (
                    field (codes "unassigned_shards") (number 0) (
                      field (codes "delayed_unassigned_shards") (number 0) (
                        field (codes "number_of_pending_tasks") (number 0) (
                          field (codes "number_of_in_flight_fetch") (number 0) (
                            field (codes "task_max_waiting_in_queue_millis") (number 0) (
                              field (codes "active_shards_percent_as_number") (number 100)
                                end))))))))))))))

abbrev one : Bytes → ℕ → Json
one key n = object (field key (number n) end)

unfoldable pub stats_doc : Env → Members
stats_doc env = field (codes "cluster_uuid") (text env.fp.es_node_uuid) (
    field (codes "cluster_name") (text env.cfg.cluster_name) (
      field (codes "status") (text (codes "green")) (
        field (codes "nodes") (object (field (codes "count") (one (codes "total") 1) end)) (
          field (codes "indices")
            (object
              (field (codes "count") (number 0) (field (codes "docs") (one (codes "count") 0) end)))
            end))))

unfoldable pub search_doc : Members
search_doc = field (codes "took") (number 1) (
    field (codes "timed_out") (boolean false) (
      field (codes "_shards") (counts 0 0 0) (
        field (codes "hits")
          (object (
            field (codes "total")
              (object (
                field (codes "value") (number 0)
                  (field (codes "relation") (text (codes "eq")) end)))
              (field (codes "max_score") null (field (codes "hits") (list nil) end))))
          end)))

unfoldable pub xpack_doc : Env → Members
xpack_doc env =
    field (codes "build")
      (object (
        field (codes "date") (text build_date)
          (field (codes "hash") (text env.fp.es_build_hash) end)))
      (field (codes "license")
        (object (
          field (codes "status") (text (codes "active"))
            (field (codes "type") (text (codes "basic")) end)))
        end)

abbrev missing : Members → Members
missing more =
    field (codes "type") (text (codes "index_not_found_exception"))
      (field (codes "reason") (text (codes "no such index")) more)

-- The path in the response is sanitized.
unfoldable pub missing_doc : Bytes → Members
missing_doc safe_path =
    field (codes "error")
      (object (
        field (codes "root_cause")
          (list (cons (object (missing (field (codes "index") (text safe_path) end))) nil))
          (missing end)))
      (field (codes "status") (number 404) end)
