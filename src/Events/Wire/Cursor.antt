-- ===== src/Events/Wire/Cursor.antt =====
-- apps/control-plane/src/events/sse-stream.ts: the cursor of a request, as the client writes it.
