-- ===== src/ServiceManager/Handler/Publishing.antt =====
-- A publication to binder/service_manager.c and a later request for the name, put together.
