-- ===== src/Wiring/Classes.antt =====
-- The classes of the components that other components find.
use otus_highload_architect.Prelude.{Text, codes}

abbrev pub postgres_class : Text
postgres_class = codes "userver::components::Postgres"

abbrev pub redis_class : Text
redis_class = codes "userver::components::Redis"

abbrev pub rabbitmq_class : Text
rabbitmq_class = codes "userver::components::RabbitMQ"

abbrev pub auth_cache_class : Text
auth_cache_class = codes "social_net_service::AuthCache"

abbrev pub grpc_client_factory_class : Text
grpc_client_factory_class = codes "userver::ugrpc::client::ClientFactoryComponent"

abbrev pub dialog_grpc_client_class : Text
dialog_grpc_client_class = codes "social_net_service::dialog::DialogGrpcClientComponent"

abbrev pub counter_grpc_client_class : Text
counter_grpc_client_class = codes "social_net_service::dialog::CounterGrpcClientComponent"

abbrev pub post_feed_cache_class : Text
post_feed_cache_class = codes "social_net_service::post::PostFeedCache"

abbrev pub post_feed_ws_manager_class : Text
post_feed_ws_manager_class = codes "social_net_service::post::PostFeedWsManager"

abbrev pub post_feed_publisher_class : Text
post_feed_publisher_class = codes "social_net_service::post::PostFeedPublisher"
