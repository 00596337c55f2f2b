-- ===== src/Wiring/Names.antt =====
-- The names under which the components of the three processes are registered and configured.
use otus_highload_architect.Prelude.{Text, codes}

-- The components of userver that a program lists.
abbrev pub ping : Text
ping = codes "handler-ping"

abbrev pub testsuite_support : Text
testsuite_support = codes "testsuite-support"

abbrev pub tests_control : Text
tests_control = codes "tests-control"

abbrev pub dns_client : Text
dns_client = codes "dns-client"

abbrev pub congestion_control : Text
congestion_control = codes "congestion-control"

abbrev pub secdist : Text
secdist = codes "secdist"

abbrev pub default_secdist_provider : Text
default_secdist_provider = codes "default-secdist-provider"

abbrev pub server_monitor : Text
server_monitor = codes "handler-server-monitor"

-- Those that the components of the repository find.
abbrev pub postgres : Text
postgres = codes "postgres-db-1"

abbrev pub redis : Text
redis = codes "key-value-database"

abbrev pub rabbitmq : Text
rabbitmq = codes "rabbitmq-driver"

abbrev pub auth_cache : Text
auth_cache = codes "auth-pg-cache"

abbrev pub grpc_client_factory : Text
grpc_client_factory = codes "grpc-client-factory"

abbrev pub dialog_grpc_client : Text
dialog_grpc_client = codes "dialog-grpc-client"

abbrev pub counter_grpc_client : Text
counter_grpc_client = codes "counter-grpc-client"

abbrev pub post_feed_cache : Text
post_feed_cache = codes "post-feed-cache"

abbrev pub post_feed_ws_manager : Text
post_feed_ws_manager = codes "post-feed-ws-manager"

abbrev pub post_feed_publisher : Text
post_feed_publisher = codes "post-feed-publisher"

abbrev pub post_feed_consumer : Text
post_feed_consumer = codes "post-feed-consumer"

abbrev pub ws_fanout_consumer : Text
ws_fanout_consumer = codes "ws-fanout-consumer"

abbrev pub user_register_handler : Text
user_register_handler = codes "handler-user-register"

abbrev pub user_get_handler : Text
user_get_handler = codes "handler-user-get"

abbrev pub user_search_handler : Text
user_search_handler = codes "handler-user-search"

abbrev pub login_handler : Text
login_handler = codes "handler-login"

abbrev pub friend_add_handler : Text
friend_add_handler = codes "handler-friend-add"

abbrev pub friend_delete_handler : Text
friend_delete_handler = codes "handler-friend-delete"

abbrev pub post_create_handler : Text
post_create_handler = codes "handler-post-create"

abbrev pub post_update_handler : Text
post_update_handler = codes "handler-post-update"

abbrev pub post_delete_handler : Text
post_delete_handler = codes "handler-post-delete"

abbrev pub post_get_handler : Text
post_get_handler = codes "handler-post-get"

abbrev pub post_feed_handler : Text
post_feed_handler = codes "handler-post-feed"

abbrev pub post_feed_ws_handler : Text
post_feed_ws_handler = codes "handler-post-feed-ws"

abbrev pub dialog_send_handler : Text
dialog_send_handler = codes "handler-dialog-send"

abbrev pub dialog_list_handler : Text
dialog_list_handler = codes "handler-dialog-list"

abbrev pub dialog_unread_handler : Text
dialog_unread_handler = codes "handler-dialog-unread-count"

abbrev pub dialog_service : Text
dialog_service = codes "dialog-grpc-service"

abbrev pub counter_service : Text
counter_service = codes "counter-grpc-service"

abbrev pub counter_consumer : Text
counter_consumer = codes "counter-consumer"

abbrev pub counter_reconciler : Text
counter_reconciler = codes "counter-reconciler"
