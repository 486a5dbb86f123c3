-- ===== src/Error/Display.antt =====
-- src/error.rs: the messages of the errors (`#[error(…)]`), which the RPC server answers with.
use Prim.Native.String.{◌++◌ as concat}
use swarm_host.Prelude.{String}
use swarm_host.Error.{
  Foreign, ExecutorError, FilterError, Error, runtime_error, executor_doesnt_exist, invalid_filter,
  invalid_address, address_in_use, io, serde_cbor, interface_already_exists, peer_already_exists,
  interface_doesnt_exist, peer_doesnt_exist, link_doesnt_exist, filter_already_exists,
  request_doesnt_exist, substrate, custom, filter_error, executor_error,
}
use swarm_host.Error.Equality.{Foreigners}

-- "…: `{0}`"
unfoldable pub quoted : String → String → String
quoted label text = concat label (concat ": `" (concat text "`"))

unfoldable pub display_executor : ExecutorError → String
unfolding quoted
display_executor (runtime_error text) = quoted "Runtime error" text
display_executor executor_doesnt_exist = "Executor does not exist"
display_executor ExecutorError.filter_doesnt_exist = "Filter does not exist"

unfoldable pub display_filter : FilterError → String
unfolding quoted
display_filter (invalid_filter text) = quoted "Invalid filter code" text

unfoldable pub display : {F : Foreign} → Foreigners F → Error F → String
unfolding quoted display_executor display_filter
display X (invalid_address text) = quoted "Invalid address" text
display X (address_in_use address) = quoted "Address already in use" (X.show_address address)
display X (io e) = quoted "I/O error" (X.show_io e)
display X (serde_cbor e) = quoted "Serde CBOR error" (X.show_cbor e)
display X interface_already_exists = "Interface already exists"
display X peer_already_exists = "Peer already exists"
display X interface_doesnt_exist = "Interface does not exist"
display X peer_doesnt_exist = "Peer does not exist"
display X link_doesnt_exist = "Link does not exist"
display X filter_already_exists = "Filter already exists"
display X Error.filter_doesnt_exist = "Filter does not exit"
display X request_doesnt_exist = "Request does not exist"
display X (substrate e) = quoted "Substrate error" (X.show_substrate e)
display X (custom text) = quoted "Custom error" text
display X (filter_error e) = quoted "Filter error" (display_filter e)
display X (executor_error e) = quoted "Executor error" (display_executor e)
