-- ===== src/Client/Guards.antt =====
-- truenas_pyjsonrpc_client/client.py: what the public calls do while a transfer has the connection.
use truenas_jsonrpc.Value.{Value}
use truenas_jsonrpc.Client.{Client}
