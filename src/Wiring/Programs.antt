-- ===== src/Wiring/Programs.antt =====
-- The programs: src/main.cpp, chat-service/src/main.cpp and counter-service/src/main.cpp. The
-- component lists of userver that a program appends are left out, and what the components of userver
-- find among themselves; a handler that asks for a bearer token in configs/static_config.yaml also
-- needs what makes the checker.
use otus_highload_architect.Prelude.{codes, [], ◌∷◌, ◌++◌}
use otus_highload_architect.Wiring.Names.{
  ping, testsuite_support, tests_control, dns_client, congestion_control, secdist,
  default_secdist_provider, server_monitor, postgres, redis, rabbitmq, auth_cache,
  grpc_client_factory, dialog_grpc_client, counter_grpc_client, post_feed_cache,
  post_feed_ws_manager, post_feed_publisher, post_feed_consumer, ws_fanout_consumer,
  user_register_handler, user_get_handler, user_search_handler, login_handler, friend_add_handler,
  friend_delete_handler, post_create_handler, post_update_handler, post_delete_handler,
  post_get_handler, post_feed_handler, post_feed_ws_handler, dialog_send_handler,
  dialog_list_handler, dialog_unread_handler, dialog_service, counter_service, counter_consumer,
  counter_reconciler,
}
use otus_highload_architect.Wiring.Classes.{
  postgres_class, redis_class, rabbitmq_class, auth_cache_class, grpc_client_factory_class,
  dialog_grpc_client_class, counter_grpc_client_class, post_feed_cache_class,
  post_feed_ws_manager_class, post_feed_publisher_class,
}
use otus_highload_architect.Wiring.{
  Program, auth_cache_needs, grpc_client_needs, checker_factory_needs, post_feed_cache_needs,
  post_feed_ws_manager_needs, post_feed_publisher_needs, post_feed_consumer_needs,
  ws_fanout_consumer_needs, user_register_handler_needs, user_get_handler_needs,
  user_search_handler_needs, login_handler_needs, friend_add_handler_needs,
  friend_delete_handler_needs, post_create_handler_needs, post_update_handler_needs,
  post_delete_handler_needs, post_get_handler_needs, post_feed_handler_needs,
  post_feed_ws_handler_needs, dialog_send_handler_needs, dialog_list_handler_needs,
  dialog_unread_handler_needs, dialog_service_needs, counter_service_needs, counter_consumer_needs,
  counter_reconciler_needs,
}

pub data Process : Type 0 where
  monolith chat_service counters_service : Process

abbrev pub monolith_components : Program
monolith_components =
    (ping, (codes "userver::server::handlers::Ping", []))
    ∷ (testsuite_support, (codes "userver::components::TestsuiteSupport", []))
    ∷ (dns_client, (codes "userver::clients::dns::Component", []))
    ∷ (tests_control, (codes "userver::server::handlers::TestsControl", []))
    ∷ (congestion_control, (codes "userver::congestion_control::Component", []))
    ∷ (secdist, (codes "userver::components::Secdist", []))
    ∷ (default_secdist_provider, (codes "userver::components::DefaultSecdistProvider", []))
    ∷ (redis, (redis_class, []))
    ∷ (rabbitmq, (rabbitmq_class, []))
    ∷ (auth_cache, (auth_cache_class, auth_cache_needs))
    ∷ (postgres, (postgres_class, []))
    ∷ (grpc_client_factory, (grpc_client_factory_class, []))
    ∷ (dialog_grpc_client, (dialog_grpc_client_class, grpc_client_needs))
    ∷ (counter_grpc_client, (counter_grpc_client_class, grpc_client_needs))
    ∷ (post_feed_cache, (post_feed_cache_class, post_feed_cache_needs))
    ∷ (post_feed_ws_manager, (post_feed_ws_manager_class, post_feed_ws_manager_needs))
    ∷ (post_feed_publisher, (post_feed_publisher_class, post_feed_publisher_needs))
    ∷ (
      post_feed_consumer,
      (codes "social_net_service::post::PostFeedConsumer", post_feed_consumer_needs),
    )
    ∷ (
      ws_fanout_consumer,
      (codes "social_net_service::post::WsFanoutConsumer", ws_fanout_consumer_needs),
    )
    ∷ (
      user_register_handler,
      (codes "social_net_service::user::UserRegisterHandler", user_register_handler_needs),
    )
    ∷ (
      user_get_handler,
      (
        codes "social_net_service::user::UserGetHandler",
        checker_factory_needs ++ user_get_handler_needs,
      ),
    )
    ∷ (
      user_search_handler,
      (
        codes "social_net_service::user::UserSearchHandler",
        checker_factory_needs ++ user_search_handler_needs,
      ),
    )
    ∷ (login_handler, (codes "social_net_service::auth::Login", login_handler_needs))
    ∷ (
      friend_add_handler,
      (
        codes "social_net_service::friend_ns::FriendAddHandler",
        checker_factory_needs ++ friend_add_handler_needs,
      ),
    )
    ∷ (
      friend_delete_handler,
      (
        codes "social_net_service::friend_ns::FriendDeleteHandler",
        checker_factory_needs ++ friend_delete_handler_needs,
      ),
    )
    ∷ (
      post_create_handler,
      (
        codes "social_net_service::post::PostCreateHandler",
        checker_factory_needs ++ post_create_handler_needs,
      ),
    )
    ∷ (
      post_update_handler,
      (
        codes "social_net_service::post::PostUpdateHandler",
        checker_factory_needs ++ post_update_handler_needs,
      ),
    )
    ∷ (
      post_delete_handler,
      (
        codes "social_net_service::post::PostDeleteHandler",
        checker_factory_needs ++ post_delete_handler_needs,
      ),
    )
    ∷ (post_get_handler, (codes "social_net_service::post::PostGetHandler", post_get_handler_needs))
    ∷ (
      post_feed_handler,
      (
        codes "social_net_service::post::PostFeedHandler",
        checker_factory_needs ++ post_feed_handler_needs,
      ),
    )
    ∷ (
      post_feed_ws_handler,
      (
        codes "social_net_service::post::PostFeedWsHandler",
        checker_factory_needs ++ post_feed_ws_handler_needs,
      ),
    )
    ∷ (
      dialog_send_handler,
      (
        codes "social_net_service::dialog::DialogSendHandler",
        checker_factory_needs ++ dialog_send_handler_needs,
      ),
    )
    ∷ (
      dialog_list_handler,
      (
        codes "social_net_service::dialog::DialogListHandler",
        checker_factory_needs ++ dialog_list_handler_needs,
      ),
    )
    ∷ (
      dialog_unread_handler,
      (
        codes "social_net_service::dialog::DialogUnreadHandler",
        checker_factory_needs ++ dialog_unread_handler_needs,
      ),
    )
    ∷ []

abbrev pub chat_components : Program
chat_components =
    (ping, (codes "userver::server::handlers::Ping", []))
    ∷ (server_monitor, (codes "userver::server::handlers::ServerMonitor", []))
    ∷ (testsuite_support, (codes "userver::components::TestsuiteSupport", []))
    ∷ (tests_control, (codes "userver::server::handlers::TestsControl", []))
    ∷ (dns_client, (codes "userver::clients::dns::Component", []))
    ∷ (congestion_control, (codes "userver::congestion_control::Component", []))
    ∷ (secdist, (codes "userver::components::Secdist", []))
    ∷ (default_secdist_provider, (codes "userver::components::DefaultSecdistProvider", []))
    ∷ (redis, (redis_class, []))
    ∷ (rabbitmq, (rabbitmq_class, []))
    ∷ (dialog_service, (codes "chat_service::dialog::DialogServiceComponent", dialog_service_needs))
    ∷ []

abbrev pub counter_components : Program
counter_components =
    (ping, (codes "userver::server::handlers::Ping", []))
    ∷ (testsuite_support, (codes "userver::components::TestsuiteSupport", []))
    ∷ (tests_control, (codes "userver::server::handlers::TestsControl", []))
    ∷ (dns_client, (codes "userver::clients::dns::Component", []))
    ∷ (congestion_control, (codes "userver::congestion_control::Component", []))
    ∷ (secdist, (codes "userver::components::Secdist", []))
    ∷ (default_secdist_provider, (codes "userver::components::DefaultSecdistProvider", []))
    ∷ (redis, (redis_class, []))
    ∷ (rabbitmq, (rabbitmq_class, []))
    ∷ (
      counter_service,
      (codes "counter_service::counter::CounterServiceComponent", counter_service_needs),
    )
    ∷ (
      counter_consumer,
      (codes "counter_service::counter::CounterConsumer", counter_consumer_needs),
    )
    ∷ (
      counter_reconciler,
      (codes "counter_service::counter::CounterReconciler", counter_reconciler_needs),
    )
    ∷ []

abbrev pub components : Process → Program
components monolith = monolith_components
components chat_service = chat_components
components counters_service = counter_components
